-- ===== src/ScoreBoard/Categories/Toggling.antt =====
-- What a click on a category changes.
use runc.Prelude.{
  String, ◌≡◌, refl, ◌∙◌, inl, inr, false, not, ◌&&◌, ◌||◌, List, [], ◌∷◌, ◌++◌, arith, ◌===◌,
  ===_iff, if◌then◌else◌, Bool-cases, filter, All,
}
use runc.Prelude.Members.{includes_text}
use runc.ScoreBoard.Categories.{
  CategoryFilter, toggle_category_selected, reset_category_filter, is_category_selected, Click,
  toggle, reset, bind_categories, after_click,
}

includes-append :
    (xs ys : List String) (t : String)
    → includes_text (xs ++ ys) t ≡ (includes_text xs t || includes_text ys t)
includes-append [] ys t = refl
includes-append (x ∷ xs) ys t = ground (arith, includes-append xs ys t)

includes-without :
    (xs : List String) (c t : String)
    → includes_text (filter (λ x. not (x === c)) xs) t ≡ (includes_text xs t && not (t === c))
includes-without [] c t = refl
includes-without (x ∷ xs) c t = elim (Bool-cases (x === c)) [
  | inl k ↦ rw k (ground (arith, includes-without xs c t, ===_iff x c, ===_iff x t, ===_iff t c))
  | inr k ↦ rw k (ground (arith, includes-without xs c t, ===_iff x c, ===_iff x t, ===_iff t c))
]

-- A click on a category selects it if it was not selected, deselects it if it was, and leaves the
-- selection of every other category as it was.
pub toggle_category_selected_lem :
    (s : CategoryFilter) (category other : String)
    → is_category_selected other (toggle_category_selected category s) ≡ (
        if other === category
        then not (is_category_selected category s)
        else is_category_selected other s)
unfolding toggle_category_selected is_category_selected
toggle_category_selected_lem s c t = elim (Bool-cases (includes_text s.categories c)) [
  | inl k ↦ rw k (ground (arith, includes-without s.categories c t))
  | inr k ↦ rw k (ground (arith, includes-append s.categories (c ∷ []) t, ===_iff c t, ===_iff t c))
]

-- After a reset, a click on a category that is not among the default ones adds it to the default
-- ones, which every component shares.
pub reset_then_toggle :
    (s : CategoryFilter) (category : String)
    → includes_text s.default_categories category ≡ false
    → (toggle_category_selected category (reset_category_filter s)).default_categories
      ≡ s.default_categories ++ category ∷ []
unfolding toggle_category_selected reset_category_filter is_category_selected
reset_then_toggle s c h = rw h refl

abbrev pub IsNoReset : Click → Type 0
IsNoReset (toggle category) = Unit
IsNoReset reset = ⊥
IsNoReset (bind_categories categories) = Unit

unfoldable pub after_clicks : List Click → CategoryFilter → CategoryFilter
after_clicks [] s = s
after_clicks (e ∷ es) s = after_clicks es (after_click e s)

own_list :
    (e : Click) (s : CategoryFilter)
    → IsNoReset e
    → s.is_default ≡ false
    → ((after_click e s).is_default ≡ false)
      × ((after_click e s).default_categories ≡ s.default_categories)
unfolding after_click toggle_category_selected is_category_selected
own_list (toggle c) s n h = ground arith
own_list reset s n h = absurd n
own_list (bind_categories cs) s n h = (refl, refl)

-- As long as the list was not reset, no click changes the default categories.
pub clicks_keep_default :
    (es : List Click) (s : CategoryFilter)
    → All IsNoReset es
    → s.is_default ≡ false
    → (after_clicks es s).default_categories ≡ s.default_categories
unfolding after_clicks
clicks_keep_default [] s n h = refl
clicks_keep_default (e ∷ es) s (n, ns) h =
    let (k, d) = own_list e s n h in clicks_keep_default es (after_click e s) ns k ∙ d
