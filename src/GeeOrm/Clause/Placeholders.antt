-- ===== src/GeeOrm/Clause/Placeholders.antt =====
-- The question marks of a statement, against the variables that are passed with it.
use days_project.Common.{
  ℕ, zero, suc, ◌+◌, ◌*◌, ◌≡◌, refl, ap, ◌∙◌, ◌≢◌, List, [], ◌∷◌, ◌++◌, some, Bool, true, false,
  Text, codes, text_dec, ite, if_pos, if_neg, join, lookup, length, length-append, arith, All,
  ℕ_discrete, Option-cases, lookup-insert_self, insert, inl, inr, ◌==◌, if◌then◌else◌,
}
use days_project.GeeOrm.Clause.{
  ClauseType, values, ClauseType-discrete, Value, slice, Values, to_list, gen_bind_vars,
  values_loop, gen_values, generate, Clause, set, build_loop, build, empty,
}

-- How many question marks a statement has.
unfoldable pub marks : Text → ℕ
marks [] = 0
marks (c ∷ s) = ite (ℕ_discrete c b'?') 1 0 + marks s

marks-append : (s t : Text) → marks (s ++ t) ≡ marks s + marks t
unfolding marks
marks-append [] t = omega arith
marks-append (c ∷ s) t = omega (arith, marks-append s t)

marks-gen_bind_vars : (n : ℕ) → marks (gen_bind_vars n) ≡ n
unfolding marks gen_bind_vars join ℕ_discrete
marks-gen_bind_vars zero = refl
marks-gen_bind_vars (suc zero) = refl
marks-gen_bind_vars (suc (suc n)) = omega (arith, marks-gen_bind_vars (suc n))

-- The rows all have `n` columns.
abbrev pub HasColumns : ℕ → Value → Type 0
HasColumns n (slice v) = length (to_list v) ≡ n
HasColumns n other = ⊥

marks-separator : (b : Bool) → marks (if b then [] else codes ", ") ≡ 0
unfolding marks ℕ_discrete
marks-separator true = refl
marks-separator false = refl

marks-row :
    (sql bind separator : Text)
    → marks (sql ++ (codes "(" ++ (bind ++ (codes ")" ++ separator))))
      ≡ marks sql + marks bind + marks separator
unfolding marks ℕ_discrete
marks-row sql bind separator = omega (
  arith,
  marks-append sql (codes "(" ++ (bind ++ (codes ")" ++ separator))),
  marks-append bind (codes ")" ++ separator),
)

-- The text for one row, as the loop computes it.
abbrev row_bind : Text → Values → Text
row_bind bind_str v = ite (text_dec bind_str []) (gen_bind_vars (length (to_list v))) bind_str

marks-row_bind :
    (n : ℕ) (bind_str : Text) (v : Values)
    → (bind_str ≢ [] → marks bind_str ≡ n)
    → length (to_list v) ≡ n
    → marks (row_bind bind_str v) ≡ n
marks-row_bind n bind_str v good here = elim (text_dec bind_str []) [
  | yes e ↦ rw (if_pos (text_dec bind_str []) e) (marks-gen_bind_vars (length (to_list v)) ∙ here)
  | no m ↦ rw (if_neg (text_dec bind_str []) m) (good m)
]

values_loop-marks :
    (n : ℕ) (bind_str : Text) (rows : List Value) (sql : Text) (vars : List Value)
    → (bind_str ≢ [] → marks bind_str ≡ n)
    → All (HasColumns n) rows
    → marks sql ≡ length vars
    → (sql' : Text) × (vars' : List Value) × (values_loop bind_str rows sql vars
        ≡ some (sql', vars'))
      × (marks sql' ≡ length vars')
      × (length vars' ≡ length vars + n * length rows)
unfolding values_loop
values_loop-marks n bind_str [] sql vars good rows same = (sql, vars, refl, same, omega arith)
values_loop-marks n bind_str (slice v ∷ rest) sql vars good (here, later) same =
    let bind = row_bind bind_str v in
    let separator = if length rest == 0 then [] else codes ", " in
    let bound = marks-row_bind n bind_str v good here in
    let (sql', vars', ran, agree, many) =
      values_loop-marks n bind rest (sql ++ (codes "(" ++ (bind ++ (codes ")" ++ separator))))
        (vars ++ to_list v) (λ e. bound) later
        (omega (
          arith,
          marks-row sql bind separator,
          bound,
          marks-separator (length rest == 0),
          length-append vars (to_list v),
          here,
        )) in
    (sql', vars', ran, agree, grind (arith, many, length-append vars (to_list v), here))
values_loop-marks n bind_str (row ∷ rest) sql vars good (here, later) same = absurd (here)

-- `_values` on rows of one length: the statement has as many question marks as there are
-- variables, which are all the values of the rows.
pub gen_values-marks :
    (n : ℕ) (rows : List Value)
    → All (HasColumns n) rows
    → (sql : Text) × (vars : List Value) × (gen_values rows ≡ some (sql, vars))
      × (marks sql ≡ length vars)
      × (length vars ≡ n * length rows)
unfolding gen_values marks ℕ_discrete
gen_values-marks n rows all =
    let (sql, vars, ran, same, many) =
      values_loop-marks n [] rows (codes "VALUES ") [] (λ e. absurd (e refl)) all refl in
    (sql, vars, ran, same, omega (arith, many))

build_loop-length :
    (c : Clause) (orders : List ClauseType)
    → length (build_loop c orders).1 ≡ length (build_loop c orders).0
unfolding build_loop
build_loop-length c [] = refl
build_loop-length c (order ∷ rest) = elim (Option-cases (lookup ClauseType-discrete order c.sql)) [
  | inl e ↦ rw (e, build_loop) (build_loop-length c rest)
  | inr (s, e) ↦ rw (e, build_loop) (ap suc (build_loop-length c rest))
]

-- `Build` hands over a clause's variables as one value. So for rows of `n` columns a statement of
-- `Set(VALUES, rows…)` and `Build(VALUES)` has one variable and `n` question marks for each row:
-- they differ, unless the rows hold exactly one value in all.
pub build_values_mismatch :
    (n : ℕ) (rows : List Value)
    → All (HasColumns n) rows
    → n * length rows ≢ 1
    → (c : Clause) × (set empty values rows ≡ some c)
      × (length (build c (values ∷ [])).1 ≡ 1)
      × (marks (build c (values ∷ [])).0 ≡ n * length rows)
      × (marks (build c (values ∷ [])).0 ≢ length (build c (values ∷ [])).1)
unfolding set generate build join
build_values_mismatch n rows all many =
    let (sql, vars, ran, same, total) = gen_values-marks n rows all in
    (
      record {
        sql = insert ClauseType-discrete values sql [];
        sql_vars = insert ClauseType-discrete values vars [];
      },
      ground (arith, ran),
      ground (arith, lookup-insert_self ClauseType-discrete values values sql [] refl),
      ground (arith, lookup-insert_self ClauseType-discrete values values sql [] refl, same, total),
      ground (arith, lookup-insert_self ClauseType-discrete values values sql [] refl, same, total),
    )
