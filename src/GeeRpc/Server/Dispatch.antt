-- ===== src/GeeRpc/Server/Dispatch.antt =====
-- Which method a request reaches.
use days_project.Common.{
  ◌≡◌, refl, sym, ◌∙◌, ◌≢◌, inl, inr, ℕ, List, [], ◌∷◌, ◌++◌, none, some, Bool, true, false, Text,
  text_dec, ok, lookup, insert, lookup-insert_self, lookup-insert_ne, Option-cases, if◌then◌else◌,
  GoMap, All, arith, ℕ_discrete, if_pos,
}
use days_project.GeeRpc.Server.{
  MethodInfo, MethodType, Server, is_rpc_method, register_methods, new_service, register, cut_last,
  find_service,
}

cut_last-none : (b : ℕ) (s : Text) → All (λ c. c ≢ b) s → cut_last b s ≡ none
unfolding cut_last
cut_last-none b [] h = refl
cut_last-none b (c ∷ s) h = ground (arith, cut_last-none b s h.1, h.0)

cut_last-append : (b : ℕ) (s t : Text) → All (λ c. c ≢ b) t → cut_last b (s ++ b ∷ t) ≡ some (s, t)
unfolding cut_last
cut_last-append b [] t h =
    rw (cut_last-none b t h) (if_pos (ℕ_discrete b b) refl (some ([], t)) none)
cut_last-append b (c ∷ s) t h = rw (cut_last-append b s t h)

-- A method name that `registerMethods` keeps is looked up as that method, where no later method
-- has the name.
abbrev pub method_type : MethodInfo → MethodType
method_type m = record { method = m.name; arg_type = m.arg_type; reply_type = m.reply_type }

lookup-insert_if :
    (b : Bool) (name other : Text) (m : MethodType) (methods : GoMap Text MethodType)
    → other ≢ name
    → lookup text_dec name (if b then insert text_dec other m methods else methods)
      ≡ lookup text_dec name methods
lookup-insert_if true name other m methods n =
    lookup-insert_ne text_dec name other m methods (λ e. n (sym e))
lookup-insert_if false name other m methods n = refl

lookup-register_methods :
    (name : Text) (ms : List MethodInfo) (methods : GoMap Text MethodType)
    → All (λ (m : MethodInfo). m.name ≢ name) ms
    → lookup text_dec name (register_methods ms methods) ≡ lookup text_dec name methods
unfolding register_methods
lookup-register_methods name [] methods h = refl
lookup-register_methods name (m ∷ ms) methods h =
    lookup-register_methods name ms
      (if is_rpc_method m then insert text_dec m.name (method_type m) methods else methods) h.1
    ∙ lookup-insert_if (is_rpc_method m) name m.name (method_type m) methods h.0

lookup-register_methods_self :
    (before after : List MethodInfo) (m : MethodInfo) (methods : GoMap Text MethodType)
    → is_rpc_method m ≡ true
    → All (λ (n : MethodInfo). n.name ≢ m.name) after
    → lookup text_dec m.name (register_methods (before ++ m ∷ after) methods) ≡ some (method_type m)
unfolding register_methods
lookup-register_methods_self [] after m methods good unique =
    lookup-register_methods m.name after
      (if is_rpc_method m then insert text_dec m.name (method_type m) methods else methods) unique
    ∙ rw good (lookup-insert_self text_dec m.name m.name (method_type m) methods refl)
lookup-register_methods_self (n ∷ before) after m methods good unique =
    lookup-register_methods_self before after m
      (if is_rpc_method n then insert text_dec n.name (method_type n) methods else methods) good
      unique

registered_service :
    (server server' : Server) (name : Text) (ms : List MethodInfo)
    → register server name ms ≡ (server', none)
    → lookup text_dec name server' ≡ some (new_service name ms)
unfolding register
registered_service server server' name ms e = elim (Option-cases (lookup text_dec name server)) [
  | inl free ↦
      ground
        (arith, free, e, lookup-insert_self text_dec name name (new_service name ms) server refl)
  | inr (s, taken) ↦ ground (arith, taken, e)
]

-- After a successful `Register`, a request for `service.method` reaches the method, for a method
-- that meets the conditions of `registerMethods`, has no dot in its name and shares it with no
-- method behind it.
pub find_service-register :
    (server server' : Server) (name : Text) (before after : List MethodInfo) (m : MethodInfo)
    → register server name (before ++ m ∷ after) ≡ (server', none)
    → is_rpc_method m ≡ true
    → All (λ c. c ≢ b'.') m.name
    → All (λ (n : MethodInfo). n.name ≢ m.name) after
    → find_service server' (name ++ b'.' ∷ m.name) ≡ ok (method_type m)
unfolding find_service new_service
find_service-register server server' name before after m registered good plain unique = ground (
  arith,
  cut_last-append b'.' name m.name plain,
  registered_service server server' name (before ++ m ∷ after) registered,
  lookup-register_methods_self before after m [] good unique,
)
