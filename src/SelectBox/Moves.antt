-- ===== src/SelectBox/Moves.antt =====
-- `move` and `move_all` on a page: the caches and the select boxes of both ids afterwards.
use bluetooth_autonomous_car.Prelude.{
  ◌≡◌, ◌≢◌, refl, sym, ◌∙◌, Bool, true, false, List, [], ◌∷◌, ◌++◌, Option, some, Bool-cases, inl,
  inr,
}
use bluetooth_autonomous_car.Text.{Text}
use bluetooth_autonomous_car.Text.Same.{same_text_refl, same_text_ne}
use bluetooth_autonomous_car.SelectBox.{
  OptionElement, Node, Page, update, node_of, delete_node, contains_node, move_present,
  move_options,
}
use bluetooth_autonomous_car.SelectBox.Lists.{loop_lists}

-- `p'` is `p` with other caches for the two ids.
pub record HasCaches (from to : Text) (f t : List Node) (p p' : Page) : Type 0 where
  pub same_document : p'.document ≡ p.document
  pub same_options : p'.options ≡ p.options
  pub same_fresh : p'.fresh ≡ p.fresh
  pub from_is : p'.cache from ≡ some f
  pub to_is : p'.cache to ≡ some t
  pub others : (id : Text) → id ≢ from → id ≢ to → p'.cache id ≡ p.cache id

HasCaches-refl :
    (from to : Text) (f t : List Node) (p : Page)
    → p.cache from ≡ some f
    → p.cache to ≡ some t
    → HasCaches from to f t p p
HasCaches-refl from to f t p hf ht = record {
  same_document = refl;
  same_options = refl;
  same_fresh = refl;
  from_is = hf;
  to_is = ht;
  others = λ id _ _. refl;
}

HasCaches-trans :
    {from to : Text} {f t f' t' : List Node} {p p' p'' : Page}
    → HasCaches from to f t p p'
    → HasCaches from to f' t' p' p''
    → HasCaches from to f' t' p p''
HasCaches-trans h k = record {
  same_document = k.same_document ∙ h.same_document;
  same_options = k.same_options ∙ h.same_options;
  same_fresh = k.same_fresh ∙ h.same_fresh;
  from_is = k.from_is;
  to_is = k.to_is;
  others = λ id x y. k.others id x y ∙ h.others id x y;
}

module _ (from to : Text) (apart : from ≢ to) where
  -- One option that the loop moves.
  move_present-HasCaches :
      (o : OptionElement) (f t : List Node) (p : Page)
      → p.cache from ≡ some f
      → p.cache to ≡ some t
      → contains_node o.value f ≡ true
      → (p' : Page) × (move_present from to o p ≡ some p')
        × HasCaches from to (delete_node o.value f) (t ++ (node_of o ∷ [])) p p'
  unfolding move_present
  move_present-HasCaches o f t p hf ht c = (
    record p {
      cache =
          update (update p.cache to (some (t ++ (node_of o ∷ [])))) from
            (some (delete_node o.value f));
    },
    simp (hf, ht, c, same_text_ne from to apart),
    record {
      same_document = refl;
      same_options = refl;
      same_fresh = refl;
      from_is = simp (same_text_refl from);
      to_is = simp (same_text_refl to, same_text_ne to from (λ e. apart (sym e)));
      others = λ id x y. simp (same_text_ne id from x, same_text_ne id to y);
    },
  )

  -- An option that is not in the cache is passed over.
  move_present-absent :
      (o : OptionElement) (f : List Node) (p : Page)
      → p.cache from ≡ some f
      → contains_node o.value f ≡ false
      → move_present from to o p ≡ some p
  unfolding move_present
  move_present-absent o f p hf c = simp (hf, c)

  module _ (chosen : OptionElement → Bool) (body : OptionElement → Page → Option Page)
      (moves : (o : OptionElement) (p : Page)
        → chosen o ≡ true
        → body o p ≡ move_present from to o p)
      (stays : (o : OptionElement) (p : Page) → chosen o ≡ false → body o p ≡ some p) where
    pub move_options-HasCaches :
        (options : List OptionElement) (f t : List Node) (p : Page)
        → p.cache from ≡ some f
        → p.cache to ≡ some t
        → (p' : Page) × (move_options body options p ≡ some p')
          × HasCaches from to
              (loop_lists chosen options f t).0
              (loop_lists chosen options f t).1
              p
              p'
    unfolding move_options loop_lists
    move_options-HasCaches [] f t p hf ht = (p, refl, HasCaches-refl from to f t p hf ht)
    move_options-HasCaches (o ∷ options) f t p hf ht = elim (Bool-cases (chosen o)) [
      | inr skip ↦ simp (skip, stays o p skip) (move_options-HasCaches options f t p hf ht)
      | inl take ↦ elim (Bool-cases (contains_node o.value f)) [
        | inr absent ↦
            simp (take, absent, moves o p take, move_present-absent o f p hf absent)
              (move_options-HasCaches options f t p hf ht)
        | inl present ↦
            let (p₁, e₁, h₁) = move_present-HasCaches o f t p hf ht present in
            let (p₂, e₂, h₂) =
              move_options-HasCaches options (delete_node o.value f) _ p₁ h₁.from_is h₁.to_is in
            simp (take, present, moves o p take, e₁) (p₂, e₂, HasCaches-trans h₁ h₂)
      ]
    ]
