-- ===== src/GeeRpc/Server/Connection.antt =====
-- The responses of one connection.
use days_project.Common.{
  ℕ, ◌≡◌, refl, sym, ap, ◌∙◌, List, [], ◌∷◌, ◌++◌, Option, Text, Result, ok, All, map, arith,
}
use mathlib.Core.List.{append-nil}
use days_project.GeeRpc.Server.{
  MethodType, Server, Header, Frame, header, body, Response, find_service, handle_request,
  request_timeout, serve,
}

-- A request: its header, the method that it names, and its body with the argument in it.
pub record Request : Type 0 where
  pub head : Header
  pub method : MethodType
  pub bytes : Text
  pub arg : Text

abbrev pub frames : List Request → List Frame
frames [] = []
frames (q ∷ rest) = header q.head ∷ body q.bytes ∷ frames rest

module _ (decode_header : Text → Option Header) (decode_body : MethodType → Text → Result Text)
    (invoke : MethodType → Text → Result Text × ℕ) (server : Server) where
  -- The server has the method, and the body decodes.
  abbrev pub IsServed : Request → Type 0
  IsServed q =
      (find_service server q.head.service_method ≡ ok q.method)
      × (decode_body q.method q.bytes ≡ ok q.arg)

  pub handle_request-seq :
      (timeout : ℕ) (h : Header) (m : MethodType) (arg : Text)
      → (handle_request decode_header decode_body invoke timeout h m arg).head.seq ≡ h.seq
  unfolding handle_request
  handle_request-seq timeout h m arg = ground arith

  abbrev pub answer : Request → Response
  answer q = handle_request decode_header decode_body invoke request_timeout q.head q.method q.arg

  serve_each :
      (qs : List Request) (rest : List Frame)
      → All IsServed qs
      → serve decode_header decode_body invoke server (frames qs ++ rest)
        ≡ map answer qs ++ serve decode_header decode_body invoke server rest
  unfolding serve
  serve_each [] rest h = refl
  serve_each (q ∷ qs) rest h = ground (arith, serve_each qs rest h.1, h.0)

  -- On a connection that carries only well-formed requests, each gets one response, in order: the
  -- method's result, its error or the timeout.
  pub serve-answer :
      (qs : List Request)
      → All IsServed qs
      → serve decode_header decode_body invoke server (frames qs) ≡ map answer qs
  unfolding serve
  serve-answer qs h =
      ap (serve decode_header decode_body invoke server) (sym (append-nil (frames qs)))
      ∙ serve_each qs [] h
      ∙ append-nil (map answer qs)
