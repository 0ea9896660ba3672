-- ===== src/Startup.antt =====
-- The checks of the configuration at the start of the server (lib/startup/validateConfig.ts). A
-- property of a product or memory that is missing or empty is falsy and stands as `false` here. The
-- schema's validation (yaml-schema-validator) is a parameter, the warnings that are logged are left
-- out.
pub mod Specials
pub mod Checks
pub mod Validity
use runc.Prelude.{
  ℕ, String, Bool, true, false, not, ◌&&◌, ◌||◌, Option, none, some, List, [], ◌∷◌, ltb, ◌==◌,
  ◌===◌, if◌then◌else◌, length, filter, every,
}
use runc.Prelude.Int.{ℤ, pos, ltb_ℤ}

-- What the checks read of a product: whether a property is truthy.
pub record ProductConfig : Type 0 where
  pub use_for_christmas_special_challenge : Bool
  pub url_for_product_tampering_challenge : Bool
  pub file_for_retrieve_blueprint_challenge : Bool
  pub exif_for_blueprint_challenge : Bool
  pub keywords_for_pastebin_data_leak_challenge : Bool

pub record MemoryConfig : Type 0 where
  pub geo_stalking_meta_security_question : Bool
  pub geo_stalking_meta_security_answer : Bool
  pub geo_stalking_visual_security_question : Bool
  pub geo_stalking_visual_security_answer : Bool
  pub user : Option String

-- `specialProducts`, by the property that each is marked with and the extra one that it needs.
pub data SpecialProduct : Type 0 where
  christmas_special : SpecialProduct
  product_tampering : SpecialProduct
  retrieve_blueprint : SpecialProduct
  leaked_unsafe_product : SpecialProduct

abbrev pub special_products : List SpecialProduct
special_products =
    christmas_special ∷ product_tampering ∷ retrieve_blueprint ∷ leaked_unsafe_product ∷ []

-- `product[key]`
abbrev pub is_product : SpecialProduct → ProductConfig → Bool
is_product christmas_special p = p.use_for_christmas_special_challenge
is_product product_tampering p = p.url_for_product_tampering_challenge
is_product retrieve_blueprint p = p.file_for_retrieve_blueprint_challenge
is_product leaked_unsafe_product p = p.keywords_for_pastebin_data_leak_challenge

-- `!extra.key || product[extra.key]`
abbrev pub has_extra : SpecialProduct → ProductConfig → Bool
has_extra christmas_special p = true
has_extra product_tampering p = true
has_extra retrieve_blueprint p = p.exif_for_blueprint_challenge
has_extra leaked_unsafe_product p = true

-- `specialMemories`
pub data SpecialMemory : Type 0 where
  meta_geo_stalking : SpecialMemory
  visual_geo_stalking : SpecialMemory

abbrev pub special_memories : List SpecialMemory
special_memories = meta_geo_stalking ∷ visual_geo_stalking ∷ []

abbrev pub user_of : SpecialMemory → String
user_of meta_geo_stalking = "john"
user_of visual_geo_stalking = "emma"

-- `memory[keys[0]] && memory[keys[1]]`
abbrev pub is_memory : SpecialMemory → MemoryConfig → Bool
is_memory meta_geo_stalking m =
    m.geo_stalking_meta_security_question && m.geo_stalking_meta_security_answer
is_memory visual_geo_stalking m =
    m.geo_stalking_visual_security_question && m.geo_stalking_visual_security_answer

-- `memory.user && memory.user !== user`
abbrev pub is_strange : SpecialMemory → Option String → Bool
is_strange k none = false
is_strange k (some user) = not (user === "") && not (user === user_of k)

unfoldable pub check_minimum_required_number_of_products : List ProductConfig → Bool
check_minimum_required_number_of_products ps = not (ltb (length ps) 4)

abbrev pub check_one : ℕ → Bool
check_one n = if n == 0 then false else not (ltb 1 n)

unfoldable pub check_unambiguous_mandatory_special_products : List ProductConfig → Bool
check_unambiguous_mandatory_special_products ps =
    every (λ k. check_one (length (filter (is_product k) ps))) special_products

-- The extra property is looked for on the only product of its kind.
abbrev check_extra : SpecialProduct → List ProductConfig → Bool
check_extra k (p ∷ []) = has_extra k p
check_extra k [] = true
check_extra k (p ∷ q ∷ ps) = true

unfoldable pub check_necessary_extra_keys_on_special_products : List ProductConfig → Bool
check_necessary_extra_keys_on_special_products ps =
    every (λ k. check_extra k (filter (is_product k) ps)) special_products

unfoldable pub check_unique_special_on_products : List ProductConfig → Bool
check_unique_special_on_products ps =
    every (λ p. not (ltb 1 (length (filter (λ k. is_product k p) special_products)))) ps

unfoldable pub check_minimum_required_number_of_memories : List MemoryConfig → Bool
check_minimum_required_number_of_memories ms = not (ltb (length ms) 2)

unfoldable pub check_unambiguous_mandatory_special_memories : List MemoryConfig → Bool
check_unambiguous_mandatory_special_memories ms =
    every (λ k. check_one (length (filter (is_memory k) ms))) special_memories

unfoldable pub check_special_memories_have_no_user_associated : List MemoryConfig → Bool
check_special_memories_have_no_user_associated ms =
    every (λ k. not (ltb 0 (length (filter (λ m. is_memory k m && is_strange k m.user) ms))))
      special_memories

unfoldable pub check_unique_special_on_memories : List MemoryConfig → Bool
check_unique_special_on_memories ms =
    every (λ m. not (ltb 1 (length (filter (λ k. is_memory k m) special_memories)))) ms

-- What `checkForIllogicalCombos` reads. A poll frequency that is missing or no number is `none`.
pub record Combos : Type 0 where
  pub restrict_to_tutorials_first : Bool
  pub hacking_instructor_enabled : Bool
  pub show_flags_in_notifications : Bool
  pub show_solved_notifications : Bool
  pub show_country_details_in_notifications : String
  pub notifications_url : Bool
  pub poll_frequency_seconds : Option ℤ

abbrev pub is_positive : Option ℤ → Bool
is_positive none = false
is_positive (some n) = ltb_ℤ (pos 0) n

abbrev pub names_country : String → Bool
names_country s = s === "name" || (s === "flag" || s === "both")

unfoldable pub check_for_illogical_combos : Combos → Bool
check_for_illogical_combos c =
    not (c.restrict_to_tutorials_first && not c.hacking_instructor_enabled)
    && (not (c.show_flags_in_notifications && not c.show_solved_notifications)
        && (not (
              names_country c.show_country_details_in_notifications
              && not c.show_flags_in_notifications)
            && (if c.notifications_url then is_positive c.poll_frequency_seconds else true)))

-- Whether the server goes on, with the result, or exits.
pub data Validated : Type 0 where
  returned : Bool → Validated
  exited : Validated

abbrev pub checks : Bool → List ProductConfig → List MemoryConfig → Combos → Bool
checks schema ps ms c =
    let conjunct : List Bool =
      schema
      ∷ check_minimum_required_number_of_products ps
      ∷ check_unambiguous_mandatory_special_products ps
      ∷ check_unique_special_on_products ps
      ∷ check_necessary_extra_keys_on_special_products ps
      ∷ check_minimum_required_number_of_memories ms
      ∷ check_unambiguous_mandatory_special_memories ms
      ∷ check_unique_special_on_memories ms
      ∷ check_special_memories_have_no_user_associated ms
      ∷ check_for_illogical_combos c
      ∷ [] in
    every (λ b. b) conjunct

-- `schema` is the result of `checkYamlSchema`.
unfoldable pub validate_config :
    Bool → List ProductConfig → List MemoryConfig → Combos → Bool → Validated
validate_config schema ps ms c exit_on_failure =
    let success = checks schema ps ms c in
    if success then returned true else if exit_on_failure then exited else returned false
