-- ===== src/ScoreBoard/Categories.antt =====
-- The filter of categories, `CategoryFilterComponent`
-- (frontend/src/app/score-board/components/filter-settings/components/category-filter/
-- category-filter.component.ts). The component changes the list that it was given, and `Array.push`
-- on a shared list is seen by all who share it: the state says whether the component's list is the
-- one of `DEFAULT_FILTER_SETTING`, which is frozen itself but not its lists.
pub mod Toggling
use runc.Prelude.{
  String, Bool, true, false, not, List, [], ◌∷◌, ◌++◌, map, ◌==◌, ◌===◌, if◌then◌else◌, length,
  filter,
}
use runc.Prelude.Members.{includes_text}
use runc.ScoreBoard.{EnrichedChallenge}

pub record CategoryFilter : Type 0 where
  pub default_categories : List String
  pub categories : List String
  pub is_default : Bool

-- The texts, each once, in the order in which they come first: `new Set(texts)`
abbrev pub set_of : List String → List String → List String
set_of [] seen = []
set_of (x ∷ xs) seen =
    let rest = set_of xs (x ∷ seen) in
    let again = set_of xs seen in if includes_text seen x then again else x ∷ rest

unfoldable pub get_available_categories : List EnrichedChallenge → List String
get_available_categories cs = set_of (map (λ c. c.category) cs) []

unfoldable pub is_category_selected : String → CategoryFilter → Bool
is_category_selected category s = includes_text s.categories category

abbrev push : String → CategoryFilter → CategoryFilter
push category s = record s {
  categories = s.categories ++ category ∷ [];
  default_categories =
      if s.is_default then s.default_categories ++ category ∷ [] else s.default_categories;
}

-- `filter` makes a new list, which nobody shares.
unfoldable pub toggle_category_selected : String → CategoryFilter → CategoryFilter
unfolding is_category_selected
toggle_category_selected category s =
    if is_category_selected category s
    then record s {
      categories = filter (λ c. not (c === category)) s.categories;
      is_default = false;
    }
    else push category s

unfoldable pub is_all_categories_selected : CategoryFilter → Bool
is_all_categories_selected s = length s.categories == 0

unfoldable pub reset_category_filter : CategoryFilter → CategoryFilter
reset_category_filter s = record s { categories = s.default_categories; is_default = true }

-- The operations of a click, and of the page that gives the component a list of its own.
pub data Click : Type 0 where
  toggle : String → Click
  reset : Click
  bind_categories : List String → Click

unfoldable pub after_click : Click → CategoryFilter → CategoryFilter
after_click (toggle category) s = toggle_category_selected category s
after_click reset s = reset_category_filter s
after_click (bind_categories categories) s = record s {
  categories = categories;
  is_default = false;
}
