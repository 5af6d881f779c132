-- ===== src/GeeRpc/Server/Values/Requests.antt =====
-- How calls are counted.
use days_project.Common.{◌+◌, ◌%◌, ◌^◌, ◌<◌, ◌≡◌, List, [], ◌∷◌, Text, Result, length, arith}
use days_project.GeeRpc.Server.{MethodType}
use days_project.GeeRpc.Server.Values.{Counted, call, call_all}

-- `NumCalls` counts the calls modulo 2 ^ 64.
pub num_calls-call_all :
    (invoke : MethodType → Text → Result Text) (args : List Text) (m : Counted)
    → m.num_calls < 2 ^ 64
    → (call_all invoke args m).num_calls ≡ (m.num_calls + length args) % 2 ^ 64
unfolding call_all call
num_calls-call_all invoke [] m small = omega arith
num_calls-call_all invoke (arg ∷ rest) m small =
    omega (arith, num_calls-call_all invoke rest (call invoke m arg).0)
