-- ===== src/Startup/Validity.antt =====
-- `validateConfig` (lib/startup/validateConfig.ts) against a description of the configurations that
-- the server starts with.
use mathlib.Core.List.{Memᴰ}
use runc.Prelude.{
  ◌≤◌, ◌≡◌, refl, ◌↔◌, Bool, true, false, not, List, arith, ltb, if◌then◌else◌, absurd_test, length,
  filter,
}
use runc.Prelude.Members.{every_iff}
use runc.Startup.{
  ProductConfig, MemoryConfig, special_products, is_product, special_memories, is_memory,
  check_minimum_required_number_of_products, check_unambiguous_mandatory_special_products,
  check_necessary_extra_keys_on_special_products, check_unique_special_on_products,
  check_minimum_required_number_of_memories, check_unambiguous_mandatory_special_memories,
  check_special_memories_have_no_user_associated, check_unique_special_on_memories, Combos,
  check_for_illogical_combos, returned, exited, checks, validate_config,
}
use runc.Startup.Specials.{IsAtMostOne, one_product, product_one, one_memory, memory_one}
use runc.Startup.Checks.{
  IsValid, combos_iff, product_found, found_product, memory_found, found_memory,
}

unique_iff :
    (ps : List ProductConfig) (ms : List MemoryConfig)
    → ((check_unique_special_on_products ps ≡ true)
        ↔ ((p : ProductConfig) → Memᴰ p ps → IsAtMostOne (λ k. is_product k p)))
      × ((check_unique_special_on_memories ms ≡ true)
          ↔ ((m : MemoryConfig) → Memᴰ m ms → IsAtMostOne (λ k. is_memory k m)))
unfolding check_unique_special_on_products check_unique_special_on_memories
unique_iff ps ms =
    let e =
      every_iff
        (λ (p : ProductConfig).
          not (ltb 1 (length (filter (λ k. is_product k p) special_products))))
        ps in
    let f =
      every_iff
        (λ (m : MemoryConfig). not (ltb 1 (length (filter (λ k. is_memory k m) special_memories))))
        ms in
    (
      (
        λ h p m. one_product (λ k. is_product k p) (e.0 h p m),
        λ h. e.1 (λ p m. product_one (λ k. is_product k p) (h p m)),
      ),
      (
        λ h m n. one_memory (λ k. is_memory k m) (f.0 h m n),
        λ h. f.1 (λ m n. memory_one (λ k. is_memory k m) (h m n)),
      ),
    )

enough_iff :
    (ps : List ProductConfig) (ms : List MemoryConfig)
    → ((check_minimum_required_number_of_products ps ≡ true) ↔ (4 ≤ length ps))
      × ((check_minimum_required_number_of_memories ms ≡ true) ↔ (2 ≤ length ms))
unfolding check_minimum_required_number_of_products check_minimum_required_number_of_memories
enough_iff ps ms =
    (((λ h. ground arith), (λ h. ground arith)), ((λ h. ground arith), (λ h. ground arith)))

returned_iff :
    (b exit : Bool)
    → ((if b then returned true else if exit then exited else returned false) ≡ returned true)
      ↔ (b ≡ true)
returned_iff true exit = (λ h. refl, λ h. refl)
returned_iff false true = (λ h. absurd (cc), λ h. absurd_test h)
returned_iff false false = (λ h. absurd (cc), λ h. absurd_test h)

checks→IsValid :
    (schema : Bool) (ps : List ProductConfig) (ms : List MemoryConfig) (c : Combos)
    → checks schema ps ms c ≡ true
    → (schema ≡ true) × IsValid ps ms c
checks→IsValid schema ps ms c h =
    let a : schema ≡ true = ground arith in
    let b1 : check_minimum_required_number_of_products ps ≡ true = ground arith in
    let b2 : check_unambiguous_mandatory_special_products ps ≡ true = ground arith in
    let b3 : check_unique_special_on_products ps ≡ true = ground arith in
    let b4 : check_necessary_extra_keys_on_special_products ps ≡ true = ground arith in
    let b5 : check_minimum_required_number_of_memories ms ≡ true = ground arith in
    let b6 : check_unambiguous_mandatory_special_memories ms ≡ true = ground arith in
    let b7 : check_unique_special_on_memories ms ≡ true = ground arith in
    let b8 : check_special_memories_have_no_user_associated ms ≡ true = ground arith in
    let b9 : check_for_illogical_combos c ≡ true = ground arith in
    (
      a,
      record {
        enough_products = (enough_iff ps ms).0.0 b1;
        enough_memories = (enough_iff ps ms).1.0 b5;
        product = product_found ps b2 b4;
        one_use = (unique_iff ps ms).0.0 b3;
        memory = memory_found ms b6 b8;
        one_place = (unique_iff ps ms).1.0 b7;
        sensible = (combos_iff c).0 b9;
      },
    )

IsValid→checks :
    (ps : List ProductConfig) (ms : List MemoryConfig) (c : Combos)
    → IsValid ps ms c
    → checks true ps ms c ≡ true
IsValid→checks ps ms c v =
    let (b2, b4) = found_product ps v.product in
    let (b6, b8) = found_memory ms v.memory in
    rw
      (
        (enough_iff ps ms).0.1 v.enough_products,
        b2,
        (unique_iff ps ms).0.1 v.one_use,
        b4,
        (enough_iff ps ms).1.1 v.enough_memories,
        b6,
        (unique_iff ps ms).1.1 v.one_place,
        b8,
        (combos_iff c).1 v.sensible,
      )
      refl

-- `validateConfig` accepts exactly the configurations whose schema is right and that are valid:
-- one product for each special product and one memory for each special memory, none used twice,
-- with their extra properties and owners, four products and two memories at least, and no
-- combination of settings without sense.
pub validate_config_iff :
    (schema : Bool) (ps : List ProductConfig) (ms : List MemoryConfig) (c : Combos) (exit : Bool)
    → (validate_config schema ps ms c exit ≡ returned true) ↔ ((schema ≡ true) × IsValid ps ms c)
unfolding validate_config
validate_config_iff schema ps ms c exit = (
  λ h. checks→IsValid schema ps ms c ((returned_iff (checks schema ps ms c) exit).0 h),
  λ (s, v). (returned_iff (checks schema ps ms c) exit).1 (rw s (IsValid→checks ps ms c v)),
)
