-- ===== src/Api/Conditions/Laws.antt =====
-- Laws of the condition loops, for any type of condition: the list is read as a partial map, by
-- `find_if`.
use rufio.Prelude.{
  ◌≡◌, refl, Bool, true, false, Option, none, some, List, [], ◌∷◌, arith, if◌then◌else◌, ◌≤◌,
  count_if, Bool-cases, inl, inr, map,
}
use rufio.Prelude.Text.{Text}
use rufio.Api.Conditions.{apply_options, update_condition, check_condition}

abbrev pub or_fresh : {C : Type 0} → Option C → C → C
or_fresh none fresh = fresh
or_fresh (some c) fresh = c

module _ {C : Type 0} where
  -- The first condition that passes the test.
  abbrev pub find_if : (C → Bool) → List C → Option C
  find_if same [] = none
  find_if same (c ∷ cs) = if same c then some c else find_if same cs

  abbrev pub holds_of : (C → Bool) → Option C → Bool
  holds_of test none = false
  holds_of test (some c) = test c

  -- What is checked is the condition that is found.
  pub check_condition-find_if :
      (same test : C → Bool) (cs : List C)
      → check_condition same test cs ≡ holds_of test (find_if same cs)
  unfolding check_condition
  check_condition-find_if same test [] = refl
  check_condition-find_if same test (c ∷ cs) = ground (arith, check_condition-find_if same test cs)

module _ {C : Type 0} (same : C → Bool) (fresh : C) (change : C → C) where
  -- The condition that was set is the changed one, or a changed fresh one where there was none.
  pub find_if-update_self :
      (cs : List C)
      → same fresh ≡ true
      → ((c : C) → same (change c) ≡ same c)
      → find_if same (update_condition same fresh change cs)
        ≡ some (change (or_fresh (find_if same cs) fresh))
  unfolding update_condition
  find_if-update_self [] hf hc = rw (hc fresh, hf)
  find_if-update_self (c ∷ cs) hf hc = elim (Bool-cases (same c)) [
    | inl e ↦ rw (e, hc c, e)
    | inr e ↦ rw (e, e) (find_if-update_self cs hf hc)
  ]

  -- A condition that another test finds is the one that it found before.
  pub find_if-update_ne :
      (other : C → Bool) (cs : List C)
      → same fresh ≡ true
      → ((c : C) → other (change c) ≡ other c)
      → ((c : C) → same c ≡ true → other c ≡ false)
      → find_if other (update_condition same fresh change cs) ≡ find_if other cs
  unfolding update_condition
  find_if-update_ne other [] hf hc hn = rw (hc fresh, hn fresh hf)
  find_if-update_ne other (c ∷ cs) hf hc hn = elim (Bool-cases (same c)) [
    | inl e ↦ rw (e, hc c, hn c e)
    | inr e ↦ rw e (rw (find_if-update_ne other cs hf hc hn))
  ]

  -- At most one condition passes a test that `change` keeps, if it was so before.
  pub count_if-update_self :
      (cs : List C)
      → ((c : C) → same (change c) ≡ same c)
      → count_if same cs ≤ 1
      → count_if same (update_condition same fresh change cs) ≤ 1
  unfolding update_condition
  count_if-update_self [] hc h = ground arith
  count_if-update_self (c ∷ cs) hc h = elim (Bool-cases (same c)) [
    | inl e ↦ rw (e, hc c, e) (rw e at h)
    | inr e ↦ rw (e, e) (count_if-update_self cs hc (rw e at h))
  ]

  pub count_if-update_ne :
      (other : C → Bool) (cs : List C)
      → same fresh ≡ true
      → ((c : C) → other (change c) ≡ other c)
      → ((c : C) → same c ≡ true → other c ≡ false)
      → count_if other (update_condition same fresh change cs) ≡ count_if other cs
  unfolding update_condition
  count_if-update_ne other [] hf hc hn = rw (hc fresh, hn fresh hf)
  count_if-update_ne other (c ∷ cs) hf hc hn = elim (Bool-cases (same c)) [
    | inl e ↦ rw (e, hc c, hn c e)
    | inr e ↦ rw e (rw (count_if-update_ne other cs hf hc hn))
  ]

-- What every option of a list keeps, the list keeps.
pub apply_options_keep :
    {C A : Type 0} (field : C → A) (with_message : Text → C → C)
    → ((m : Text) (c : C) → field (with_message m c) ≡ field c)
    → (messages : List Text) (c : C) → field (apply_options (map with_message messages) c) ≡ field c
unfolding apply_options
apply_options_keep field with_message h [] c = refl
apply_options_keep field with_message h (m ∷ ms) c =
    rw (apply_options_keep field with_message h ms (with_message m c), h m c)
