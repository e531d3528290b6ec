-- ===== src/Api/Job/Names.antt =====
-- The names of a Job's tasks.
use rufio.Prelude.{ℕ, ◌≡◌, refl, sym, ◌∙◌, ap, [], ◌∷◌, ◌++◌, length, length-append, arith}
use mathlib.Core.List.{append_assoc}
use rufio.Prelude.Text.{Text, codes}
use rufio.Prelude.Decimal.{format_ℕ}
use rufio.Prelude.Decimal.RoundTrip.{value, value-format_ℕ, NoDash, format_ℕ-NoDash}
use rufio.Api.Job.{Job, format_task_name}

dash_in : (xs ys : Text) → NoDash (xs ++ (b'-' ∷ ys)) → ⊥
dash_in [] ys h = cc (h.0)
dash_in (x ∷ xs) ys h = dash_in xs ys h.1

-- A text with a dash splits at its last dash in one way.
last_dash :
    (xs ds ys es : Text)
    → NoDash ds
    → NoDash es
    → xs ++ (b'-' ∷ ds) ≡ ys ++ (b'-' ∷ es)
    → (xs ≡ ys) × (ds ≡ es)
last_dash [] ds [] es hd he e = (refl, cc)
last_dash [] ds (y ∷ ys) es hd he e =
    let q : ds ≡ ys ++ (b'-' ∷ es) = cc in absurd (dash_in ys es (rw q at hd))
last_dash (x ∷ xs) ds [] es hd he e =
    let q : es ≡ xs ++ (b'-' ∷ ds) = cc in absurd (dash_in xs ds (rw q at he))
last_dash (x ∷ xs) ds (y ∷ ys) es hd he e =
    let q : xs ++ (b'-' ∷ ds) ≡ ys ++ (b'-' ∷ es) = cc in
    let p : x ≡ y = cc in let (a, b) = last_dash xs ds ys es hd he q in (rw (a, p), b)

append_cancel : (xs ys zs : Text) → xs ++ zs ≡ ys ++ zs → xs ≡ ys
append_cancel [] [] zs e = refl
append_cancel [] (y ∷ ys) zs e = absurd (omega (arith, ap length e, length-append {0} ys zs))
append_cancel (x ∷ xs) [] zs e = absurd (omega (arith, ap length e, length-append {0} xs zs))
append_cancel (x ∷ xs) (y ∷ ys) zs e =
    let q : xs ++ zs ≡ ys ++ zs = cc in let p : x ≡ y = cc in rw (append_cancel xs ys zs q, p)

-- The name of a task determines the name of its job and its index: two tasks of FormatTaskName have
-- the same name only if both agree, also where the name of one job ends like that of a task.
pub format_task_name-injective :
    (j k : Job) (m n : ℕ)
    → format_task_name j m ≡ format_task_name k n
    → (j.object_meta.name ≡ k.object_meta.name) × (m ≡ n)
unfolding format_task_name
format_task_name-injective j k m n e =
    let x = j.object_meta.name in
    let y = k.object_meta.name in
    let e' : (x ++ codes "-task") ++ (b'-' ∷ format_ℕ m)
        ≡ (y ++ codes "-task") ++ (b'-' ∷ format_ℕ n) =
      append_assoc x (codes "-task") _ ∙ e ∙ sym (append_assoc y (codes "-task") _) in
    let (p, q) = last_dash _ _ _ _ (format_ℕ-NoDash m) (format_ℕ-NoDash n) e' in
    (
      append_cancel x y (codes "-task") p,
      sym (value-format_ℕ m) ∙ (ap (value 0) q ∙ value-format_ℕ n),
    )
