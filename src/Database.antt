-- ===== src/Database.antt =====
-- The object-relational mapper (sequelize) that the route handlers call: a parameter of the model.
-- A table's contents are a list of rows. Each call may reject; the laws are what its documentation
-- promises of a call that resolves. Nothing is assumed of which of several matching rows
-- `find_one` picks.
use mathlib.Core.List.{Memᴰ}
use runc.Prelude.{
  ℕ, ◌≡◌, refl, sym, inl, inr, Bool, true, false, not, Option, none, some, List, [], ◌∷◌, ◌++◌,
  arith, Bool-cases, length, filter, any, find, map_where, count,
}
use runc.Prelude.Http.{Outcome, ok}

pub record Orm : Type 1 where
  -- `Model.findOne({ where })`, also `findByPk`
  pub find_one : {Row : Type 0} → (Row → Bool) → List Row → Outcome (Option Row)
  -- `Model.findAll({ where })`
  pub find_all : {Row : Type 0} → (Row → Bool) → List Row → Outcome (List Row)
  -- `Model.update(values, { where })`, `increment`, `decrement` and `instance.save()`
  pub update : {Row : Type 0} → (Row → Bool) → (Row → Row) → List Row → Outcome (List Row)
  -- `Model.destroy({ where })`: the number of rows removed, and the rows that stay
  pub destroy : {Row : Type 0} → (Row → Bool) → List Row → Outcome (ℕ × List Row)
  -- `Model.create(values)`: appends a row, which is built from the new id
  pub create : {Row : Type 0} → (ℕ → Row) → List Row → Outcome (Row × List Row)
  pub find_one_some :
      {Row : Type 0} (p : Row → Bool) (t : List Row) (r : Row)
      → find_one p t ≡ ok (some r)
      → (p r ≡ true) × Memᴰ r t
  pub find_one_none :
      {Row : Type 0} (p : Row → Bool) (t : List Row) → find_one p t ≡ ok none → any p t ≡ false
  pub find_all_lem :
      {Row : Type 0} (p : Row → Bool) (t rs : List Row) → find_all p t ≡ ok rs → rs ≡ filter p t
  pub update_lem :
      {Row : Type 0} (p : Row → Bool) (f : Row → Row) (t t' : List Row)
      → update p f t ≡ ok t'
      → t' ≡ map_where p f t
  pub destroy_lem :
      {Row : Type 0} (p : Row → Bool) (t t' : List Row) (n : ℕ)
      → destroy p t ≡ ok (n, t')
      → (n ≡ count p t) × (t' ≡ filter (λ r. not (p r)) t)
  pub create_lem :
      {Row : Type 0} (mk : ℕ → Row) (t t' : List Row) (r : Row)
      → create mk t ≡ ok (r, t')
      → ((id : ℕ) × (r ≡ mk id)) × (t' ≡ t ++ r ∷ [])

module _ {Row : Type 0} where
  pub find-some :
      (p : Row → Bool) (t : List Row) (r : Row)
      → ok (find p t) ≡ ok (some r)
      → (p r ≡ true) × Memᴰ r t
  find-some p [] r e = cc
  find-some p (x ∷ xs) r e = elim (Bool-cases (p x)) [
    | inl h ↦ let x-eq-r : x ≡ r = ground arith in (rw (← x-eq-r) h, Memᴰ.head (sym x-eq-r))
    | inr h ↦ let (pr, m) = find-some p xs r (ground arith) in (pr, Memᴰ.tail m)
  ]

  pub find-none : (p : Row → Bool) (t : List Row) → ok (find p t) ≡ ok none → any p t ≡ false
  find-none p [] e = refl
  find-none p (x ∷ xs) e = ground (arith, find-none p xs)

  pub find_all_list : (p : Row → Bool) (t rs : List Row) → ok (filter p t) ≡ ok rs → rs ≡ filter p t
  find_all_list p t rs e = cc

  pub update_list :
      (p : Row → Bool) (f : Row → Row) (t t' : List Row)
      → ok (map_where p f t) ≡ ok t'
      → t' ≡ map_where p f t
  update_list p f t t' e = cc

  pub destroy_list :
      (p : Row → Bool) (t t' : List Row) (n : ℕ)
      → ◌≡◌ {A = Outcome (ℕ × List Row)} (ok (count p t, filter (λ r. not (p r)) t)) (ok (n, t'))
      → (n ≡ count p t) × (t' ≡ filter (λ r. not (p r)) t)
  destroy_list p t t' n e = (ground arith, ground arith)

  pub create_list :
      (mk : ℕ → Row) (t t' : List Row) (r : Row)
      → ◌≡◌ {A = Outcome (Row × List Row)}
          (ok (mk (length t), t ++ mk (length t) ∷ []))
          (ok (r, t'))
      → ((id : ℕ) × (r ≡ mk id)) × (t' ≡ t ++ r ∷ [])
  create_list mk t t' r e =
      let r-eq : r ≡ mk (length t) = ground arith in ((length t, r-eq), rw r-eq (ground arith))

-- A database that never rejects and takes the first matching row meets the laws.
abbrev pub list_orm : Orm
list_orm = record {
  find_one = λ p t. ok (find p t);
  find_all = λ p t. ok (filter p t);
  update = λ p f t. ok (map_where p f t);
  destroy = λ p t. ok (count p t, filter (λ r. not (p r)) t);
  create = λ mk t. ok (mk (length t), t ++ mk (length t) ∷ []);
  find_one_some = find-some;
  find_one_none = find-none;
  find_all_lem = find_all_list;
  update_lem = update_list;
  destroy_lem = destroy_list;
  create_lem = create_list;
}
