-- ===== src/Startup/Checks.antt =====
-- The configurations that the server starts with, described, and single checks against parts of the
-- description.
use mathlib.Core.List.{Memᴰ}
use runc.Prelude.{
  ◌≤◌, String, ◌≡◌, refl, sym, ap, ◌↔◌, ◌⊎◌, inl, inr, Bool, true, false, not, ◌&&◌, Option, none,
  some, List, arith, ltb, ◌===◌, ===_iff, absurd_test, Bool-cases, length, filter, every,
}
use runc.Startup.{
  ProductConfig, MemoryConfig, SpecialProduct, christmas_special, product_tampering,
  retrieve_blueprint, leaked_unsafe_product, special_products, is_product, has_extra, SpecialMemory,
  meta_geo_stalking, visual_geo_stalking, special_memories, is_memory, is_strange, check_one,
  check_unambiguous_mandatory_special_products, check_extra,
  check_necessary_extra_keys_on_special_products, check_unambiguous_mandatory_special_memories,
  check_special_memories_have_no_user_associated, Combos, check_for_illogical_combos, user_of,
  names_country, is_positive,
}
use runc.Startup.Specials.{
  HasOne, find_one, filter_one, IsAtMostOne, same_one, one-Mem, none_pass, none_left,
}

-- Of no user, of one without a name, or of the user whose the special memory is.
abbrev pub BelongsTo : SpecialMemory → Option String → Type 0
BelongsTo k user = (user ≡ none) ⊎ ((user ≡ some "") ⊎ (user ≡ some (user_of k)))

pub record IsSensible (c : Combos) : Type 0 where
  pub instructor : c.restrict_to_tutorials_first ≡ true → c.hacking_instructor_enabled ≡ true
  pub flags : c.show_flags_in_notifications ≡ true → c.show_solved_notifications ≡ true
  pub countries :
      names_country c.show_country_details_in_notifications ≡ true
      → c.show_flags_in_notifications ≡ true
  pub polling : c.notifications_url ≡ true → is_positive c.poll_frequency_seconds ≡ true

-- One product for each of the four special ones and one memory for each of the two, none used
-- twice, with what each of them needs.
pub record IsValid (ps : List ProductConfig) (ms : List MemoryConfig) (c : Combos) : Type 0 where
  pub enough_products : 4 ≤ length ps
  pub enough_memories : 2 ≤ length ms
  pub product :
      (k : SpecialProduct)
      → (p : ProductConfig) × HasOne (is_product k) ps p × (has_extra k p ≡ true)
  pub one_use : (p : ProductConfig) → Memᴰ p ps → IsAtMostOne (λ k. is_product k p)
  pub memory :
      (k : SpecialMemory) → (m : MemoryConfig) × HasOne (is_memory k) ms m × BelongsTo k m.user
  pub one_place : (m : MemoryConfig) → Memᴰ m ms → IsAtMostOne (λ k. is_memory k m)
  pub sensible : IsSensible c

stranger_iff :
    (k : SpecialMemory) (user : Option String) → (is_strange k user ≡ false) ↔ BelongsTo k user
stranger_iff k none = (λ h. inl refl, λ h. refl)
stranger_iff k (some user) = (λ h. owner h, λ b. own b)
  where
    owner : is_strange k (some user) ≡ false → BelongsTo k (some user)
    owner h = elim (Bool-cases (user === "")) [
      | inl e ↦ inr (inl (ap some ((===_iff user "").0 e)))
      | inr e ↦ elim (Bool-cases (user === user_of k)) [
        | inl f ↦ inr (inr (ap some ((===_iff user (user_of k)).0 f)))
        | inr f ↦ absurd_test (sym (rw (e, f) at h))
      ]
    ]

    own : BelongsTo k (some user) → is_strange k (some user) ≡ false
    own (inl e) = absurd (cc)
    own (inr (inl e)) = let q : user ≡ "" = cc in rw ((===_iff user "").1 q) refl
    own (inr (inr e)) =
        let q : user ≡ user_of k = cc in
        let same = (===_iff user (user_of k)).1 q in ground (arith, same)

every_product :
    (f : SpecialProduct → Bool)
    → every f special_products ≡ true
    → (k : SpecialProduct) → f k ≡ true
every_product f h christmas_special = ground arith
every_product f h product_tampering = ground arith
every_product f h retrieve_blueprint = ground arith
every_product f h leaked_unsafe_product = ground arith

products_every :
    (f : SpecialProduct → Bool)
    → ((k : SpecialProduct) → f k ≡ true)
    → every f special_products ≡ true
products_every f h =
    rw (h christmas_special, h product_tampering, h retrieve_blueprint, h leaked_unsafe_product)
      refl

every_memory :
    (f : SpecialMemory → Bool) → every f special_memories ≡ true → (k : SpecialMemory) → f k ≡ true
every_memory f h meta_geo_stalking = ground arith
every_memory f h visual_geo_stalking = ground arith

memories_every :
    (f : SpecialMemory → Bool)
    → ((k : SpecialMemory) → f k ≡ true)
    → every f special_memories ≡ true
memories_every f h = rw (h meta_geo_stalking, h visual_geo_stalking) refl

pub combos_iff : (c : Combos) → (check_for_illogical_combos c ≡ true) ↔ IsSensible c
unfolding check_for_illogical_combos
combos_iff c = (
  λ h. record {
    instructor = λ k. ground arith;
    flags = λ k. ground arith;
    countries = λ k. ground arith;
    polling = λ k. ground arith;
  },
  λ s. ground (arith, s.instructor, s.flags, s.countries, s.polling),
)

pub product_found :
    (ps : List ProductConfig)
    → check_unambiguous_mandatory_special_products ps ≡ true
    → check_necessary_extra_keys_on_special_products ps ≡ true
    → (k : SpecialProduct)
    → (p : ProductConfig) × HasOne (is_product k) ps p × (has_extra k p ≡ true)
unfolding check_unambiguous_mandatory_special_products
    check_necessary_extra_keys_on_special_products
product_found ps h e k =
    let (p, o) =
      find_one (is_product k) ps
        (every_product (λ j. check_one (length (filter (is_product j) ps))) h k) in
    let extra = every_product (λ j. check_extra j (filter (is_product j) ps)) e k in
    (p, o, rw (filter_one (is_product k) ps p o) at extra)

pub found_product :
    (ps : List ProductConfig)
    → ((k : SpecialProduct)
        → (p : ProductConfig) × HasOne (is_product k) ps p × (has_extra k p ≡ true))
    → (check_unambiguous_mandatory_special_products ps ≡ true)
      × (check_necessary_extra_keys_on_special_products ps ≡ true)
unfolding check_unambiguous_mandatory_special_products
    check_necessary_extra_keys_on_special_products
found_product ps h = (
  products_every (λ j. check_one (length (filter (is_product j) ps)))
      (λ k. let (p, o, e) = h k in rw (filter_one (is_product k) ps p o) refl),
  products_every (λ j. check_extra j (filter (is_product j) ps))
      (λ k. let (p, o, e) = h k in rw (filter_one (is_product k) ps p o) e),
)

-- The memories of a kind that belong to another user.
abbrev strangers : SpecialMemory → MemoryConfig → Bool
strangers k m = is_memory k m && is_strange k m.user

no_strangers :
    (ms : List MemoryConfig) (k : SpecialMemory) (m : MemoryConfig)
    → HasOne (is_memory k) ms m
    → (not (ltb 0 (length (filter (strangers k) ms))) ≡ true) ↔ BelongsTo k m.user
no_strangers ms k m o = (
  λ h.
      let q = none_pass (strangers k) ms (ground arith) m (one-Mem (is_memory k) ms m o) in
      (stranger_iff k m.user).0 (not_strange (is_one o) q),
  λ b. rw (none_left (strangers k) ms (λ y n. unknown b y n)) refl,
)
  where
    is_one : HasOne (is_memory k) ms m → is_memory k m ≡ true
    is_one (before, after, e, q, b, a) = q

    not_strange : is_memory k m ≡ true → strangers k m ≡ false → is_strange k m.user ≡ false
    not_strange a b = ground arith

    unknown : BelongsTo k m.user → (y : MemoryConfig) → Memᴰ y ms → strangers k y ≡ false
    unknown b y n = elim (Bool-cases (is_memory k y)) [
      | inl h ↦
          let e = same_one (is_memory k) ms m y o n h in
          let s : is_strange k y.user ≡ false = rw e ((stranger_iff k m.user).1 b) in
          ground (arith, s)
      | inr h ↦ ground (arith, h)
    ]

pub memory_found :
    (ms : List MemoryConfig)
    → check_unambiguous_mandatory_special_memories ms ≡ true
    → check_special_memories_have_no_user_associated ms ≡ true
    → (k : SpecialMemory) → (m : MemoryConfig) × HasOne (is_memory k) ms m × BelongsTo k m.user
unfolding check_unambiguous_mandatory_special_memories
    check_special_memories_have_no_user_associated
memory_found ms h e k =
    let (m, o) =
      find_one (is_memory k) ms
        (every_memory (λ j. check_one (length (filter (is_memory j) ms))) h k) in
    (
      m,
      o,
      (no_strangers ms k m o).0
          (every_memory (λ j. not (ltb 0 (length (filter (strangers j) ms)))) e k),
    )

pub found_memory :
    (ms : List MemoryConfig)
    → ((k : SpecialMemory) → (m : MemoryConfig) × HasOne (is_memory k) ms m × BelongsTo k m.user)
    → (check_unambiguous_mandatory_special_memories ms ≡ true)
      × (check_special_memories_have_no_user_associated ms ≡ true)
unfolding check_unambiguous_mandatory_special_memories
    check_special_memories_have_no_user_associated
found_memory ms h = (
  memories_every (λ j. check_one (length (filter (is_memory j) ms)))
      (λ k. let (m, o, b) = h k in rw (filter_one (is_memory k) ms m o) refl),
  memories_every (λ j. not (ltb 0 (length (filter (strangers j) ms))))
      (λ k. let (m, o, b) = h k in (no_strangers ms k m o).1 b),
)
