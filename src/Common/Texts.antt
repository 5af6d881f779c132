-- ===== src/Common/Texts.antt =====
-- A Go string is the list of its bytes; `string(…)` and `[]byte(…)` change nothing then.
use Prim.Native.Char.{code}
use Prim.Native.String.{String}
use Prim.Native.Nat.{ℕ}
use mathlib.Core.Path.{◌≡◌, refl, sym, ap, ap₂, ◌∙◌}
use mathlib.Core.Bool.{Bool, true, false}
use mathlib.Core.Logic.{ite, if_pos, if_neg, ◌≢◌}
use mathlib.Core.List.{List, [], ◌∷◌, ◌++◌, append-nil, append_assoc}
use native.Mathlib.Decide.{ℕ_discrete}
use native.Mathlib.Omega.{arith}

abbrev pub Text : Type 0
Text = List ℕ

-- The bytes of an ASCII literal.
abbrev pub codes : String → Text
codes String.[] = []
codes (String.◌∷◌ c s) = code c ∷ codes s

heads_dec : {c d : ℕ} {s t : Text} → Dec (c ≡ d) → Dec (s ≡ t) → Dec (c ∷ s ≡ d ∷ t)
heads_dec (yes p) (yes q) = yes (ap₂ ◌∷◌ p q)
heads_dec (yes p) (no q) = no (λ e. q (ground arith))
heads_dec (no p) d = no (λ e. p (ground arith))

unfoldable pub text_dec : Discrete Text
unfolding heads_dec ℕ_discrete
text_dec [] [] = yes refl
text_dec [] (d ∷ t) = no (λ e. cc)
text_dec (c ∷ s) [] = no (λ e. cc)
text_dec (c ∷ s) (d ∷ t) = heads_dec (ℕ_discrete c d) (text_dec s t)

-- `strings.Split(s, sep)` at a one-byte separator: never empty.
unfoldable pub split_from : ℕ → Text → Text → List Text
split_from sep cur [] = cur ∷ []
split_from sep cur (c ∷ s) =
    let closed = cur ∷ split_from sep [] s in
    let longer = split_from sep (cur ++ c ∷ []) s in ite (ℕ_discrete c sep) closed longer

unfoldable pub split : Text → ℕ → List Text
unfolding split_from ℕ_discrete
split s sep = split_from sep [] s

-- `strings.Join(parts, sep)`
unfoldable pub join : List Text → Text → Text
join [] sep = []
join (p ∷ []) sep = p
join (p ∷ q ∷ ps) sep = p ++ (sep ++ join (q ∷ ps) sep)

-- `strings.HasPrefix(s, prefix)`
unfoldable pub has_prefix : Text → Text → Bool
has_prefix s [] = true
has_prefix [] (p ∷ ps) = false
has_prefix (c ∷ s) (p ∷ ps) = ite (ℕ_discrete c p) (has_prefix s ps) false

-- `Split` undoes `Join` at a byte that no part holds.
abbrev pub Lacks : ℕ → Text → Type 0
Lacks sep [] = Unit
Lacks sep (c ∷ s) = (c ≢ sep) × Lacks sep s

abbrev pub AllLack : ℕ → List Text → Type 0
AllLack sep [] = Unit
AllLack sep (p ∷ ps) = Lacks sep p × AllLack sep ps

split_from-append :
    (sep : ℕ) (p cur rest : Text)
    → Lacks sep p
    → split_from sep cur (p ++ rest) ≡ split_from sep (cur ++ p) rest
unfolding split_from
split_from-append sep [] cur rest h = rw append-nil
split_from-append sep (c ∷ p) cur rest h =
    if_neg (ℕ_discrete c sep) h.0 _ _
    ∙ split_from-append sep p (cur ++ c ∷ []) rest h.1
    ∙ ap (λ t. split_from sep t rest) (append_assoc cur (c ∷ []) p)

split_from-join :
    (sep : ℕ) (p : Text) (ps : List Text)
    → Lacks sep p
    → AllLack sep ps
    → split_from sep [] (join (p ∷ ps) (sep ∷ [])) ≡ p ∷ ps
unfolding split_from join
split_from-join sep p [] h hs =
    ap (split_from sep []) (sym (append-nil p)) ∙ split_from-append sep p [] [] h
split_from-join sep p (q ∷ qs) h hs =
    split_from-append sep p [] (sep ∷ join (q ∷ qs) (sep ∷ [])) h
    ∙ if_pos (ℕ_discrete sep sep) refl _ _
    ∙ ap (◌∷◌ p) (split_from-join sep q qs hs.0 hs.1)

pub split-join :
    (sep : ℕ) (p : Text) (ps : List Text)
    → Lacks sep p
    → AllLack sep ps
    → split (join (p ∷ ps) (sep ∷ [])) sep ≡ p ∷ ps
unfolding split
split-join sep p ps h hs = split_from-join sep p ps h hs
