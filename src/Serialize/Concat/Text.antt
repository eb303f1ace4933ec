-- ===== src/Serialize/Concat/Text.antt =====
-- magic/lua_serialize.cpp, `concat` and `concatsafe`: the result is the text of the values, one after
-- the other.
use new_happy_server.Base.{ℕ, suc, ◌≤◌, refl, subst, List, [], ◌∷◌, ◌++◌, le→ltb}
use new_happy_server.Serialize.Sink.{Sink}
use new_happy_server.Serialize.Value.{max_depth}
use new_happy_server.Serialize.Pack.{Packed, checked}
use new_happy_server.Serialize.Errors.{Owns, bind-Owns, checked-Owns}
use new_happy_server.Serialize.Appends.{Writes, write-Writes, nothing-Writes, bind-Writes}
use new_happy_server.Serialize.Concat.{
  Item, Items, nil_item, boolean_item, integer_item, real_item, string_item, table_item, other_item,
  no_items, item, boolean_text, concat_one, concat_items, concat_all,
}

-- Tables no deeper than the limit, and nothing that has no text.
unfoldable mutual
  pub HasText : ℕ → Item → Type 0
  HasText depth nil_item = depth ≤ max_depth
  HasText depth (boolean_item b) = depth ≤ max_depth
  HasText depth (integer_item v) = depth ≤ max_depth
  HasText depth (real_item v) = depth ≤ max_depth
  HasText depth (string_item str) = depth ≤ max_depth
  HasText depth (table_item items) = (depth ≤ max_depth) × HaveText (suc depth) items
  HasText depth other_item = ⊥

  pub HaveText : ℕ → Items → Type 0
  HaveText depth no_items = Unit {0}
  HaveText depth (item v vs) = HasText depth v × HaveText depth vs

unfoldable pub AllHaveText : List Item → Type 0
unfolding HasText
AllHaveText [] = Unit {0}
AllHaveText (v ∷ vs) = HasText 0 v × AllHaveText vs

module _ (integer_text real_text : ℕ → List ℕ) where
  unfoldable mutual
    pub text : Item → List ℕ
    text nil_item = []
    text (boolean_item b) = boolean_text b
    text (integer_item v) = integer_text v
    text (real_item v) = real_text v
    text (string_item str) = str
    text (table_item items) = texts items
    text other_item = []

    pub texts : Items → List ℕ
    texts no_items = []
    texts (item v vs) = text v ++ texts vs

  unfoldable pub all_texts : List Item → List ℕ
  unfolding text
  all_texts [] = []
  all_texts (v ∷ vs) = text v ++ all_texts vs

  module _ (k : Sink) where
    open k use {State, write, is_heap, is_heap-write}

    checked-Writes :
        (xs : List ℕ) (depth : ℕ) (s : State) (body : Packed State)
        → depth ≤ max_depth
        → Writes k xs s body
        → Writes k xs s (checked k depth s body)
    checked-Writes xs depth s body h w = rw (le→ltb max_depth depth h) w

    mutual
      unfolding text concat_one HasText texts concat_items HaveText

      concat_one-Writes :
          (depth : ℕ) (v : Item) (s : State)
          → HasText depth v
          → Writes k (text v) s (concat_one integer_text real_text k depth v s)
      concat_one-Writes depth nil_item s h = checked-Writes [] depth s _ h (nothing-Writes k s)
      concat_one-Writes depth (boolean_item b) s h =
          checked-Writes _ depth s _ h (write-Writes k (boolean_text b) s)
      concat_one-Writes depth (integer_item v) s h =
          checked-Writes _ depth s _ h (write-Writes k (integer_text v) s)
      concat_one-Writes depth (real_item v) s h =
          checked-Writes _ depth s _ h (write-Writes k (real_text v) s)
      concat_one-Writes depth (string_item str) s h =
          checked-Writes _ depth s _ h (write-Writes k str s)
      concat_one-Writes depth (table_item items) s h =
          checked-Writes _ depth s _ h.0 (concat_items-Writes (suc depth) items s h.1)
      concat_one-Writes depth other_item s h = absurd h

      concat_items-Writes :
          (depth : ℕ) (vs : Items) (s : State)
          → HaveText depth vs
          → Writes k (texts vs) s (concat_items integer_text real_text k depth vs s)
      concat_items-Writes depth no_items s h = nothing-Writes k s
      concat_items-Writes depth (item v vs) s h =
          bind-Writes k (text v) (texts vs) s _ _ (concat_one-Writes depth v s h.0)
            (λ t. concat_items-Writes depth vs t h.1)

    pub concat_all-Writes :
        (vs : List Item) (s : State)
        → AllHaveText vs
        → Writes k (all_texts vs) s (concat_all integer_text real_text k vs s)
    unfolding all_texts concat_all AllHaveText
    concat_all-Writes [] s h = nothing-Writes k s
    concat_all-Writes (v ∷ vs) s h =
        bind-Writes k (text v) (all_texts vs) s _ _ (concat_one-Writes 0 v s h.0)
          (λ t. concat_all-Writes vs t h.1)

    mutual
      unfolding concat_one concat_items

      concat_one-Owns :
          (depth : ℕ) (v : Item) (s : State)
          → Owns k (is_heap s) (concat_one integer_text real_text k depth v s)
      concat_one-Owns depth nil_item s = checked-Owns k (is_heap s) depth s _ refl refl
      concat_one-Owns depth (boolean_item b) s =
          checked-Owns k (is_heap s) depth s _ refl (is_heap-write _ s)
      concat_one-Owns depth (integer_item v) s =
          checked-Owns k (is_heap s) depth s _ refl (is_heap-write _ s)
      concat_one-Owns depth (real_item v) s =
          checked-Owns k (is_heap s) depth s _ refl (is_heap-write _ s)
      concat_one-Owns depth (string_item str) s =
          checked-Owns k (is_heap s) depth s _ refl (is_heap-write _ s)
      concat_one-Owns depth (table_item items) s =
          checked-Owns k (is_heap s) depth s _ refl (concat_items-Owns (suc depth) items s)
      concat_one-Owns depth other_item s = checked-Owns k (is_heap s) depth s _ refl refl

      concat_items-Owns :
          (depth : ℕ) (vs : Items) (s : State)
          → Owns k (is_heap s) (concat_items integer_text real_text k depth vs s)
      concat_items-Owns depth no_items s = refl
      concat_items-Owns depth (item v vs) s =
          bind-Owns k (is_heap s) _ _ (concat_one-Owns depth v s) (λ t e.
            subst (λ heap. Owns k heap (concat_items integer_text real_text k depth vs t)) e
              (concat_items-Owns depth vs t))

    pub concat_all-Owns :
        (vs : List Item) (s : State) → Owns k (is_heap s) (concat_all integer_text real_text k vs s)
    unfolding concat_all
    concat_all-Owns [] s = refl
    concat_all-Owns (v ∷ vs) s = bind-Owns k (is_heap s) _ _ (concat_one-Owns 0 v s) (λ t e.
        subst (λ heap. Owns k heap (concat_all integer_text real_text k vs t)) e
          (concat_all-Owns vs t))
