-- ===== src/Navigation/Filter.antt =====
-- What Filter keeps, node by node: a node is reached through the labels of the nodes above it.
use go_core.Prelude.{
  String, ◌≡◌, ◌↔◌, refl, sym, ◌∙◌, ap, Bool, true, false, ◌&&◌, ◌||◌, ◌⊎◌, not, List, [], ◌∷◌, all,
  arith, if◌then◌else◌, Bool-cases, inl, inr, and_left, and_right, and_intro,
}
use mathlib.Core.Path.{subst}
use go_core.Navigation.{
  Label, Node, Nodes, node, no_nodes, more, nonempty, has_any, holds_all, holds_one, filter,
}

-- Some node of the tree has this label and these children, below nodes with the labels `above`.
pub data Way : Nodes → List Label → Label → Nodes → Type 0 where
  at : {n : Label} {children ns : Nodes} → Way (more (node n children) ns) [] n children
  down :
      {n l : Label} {children ns below : Nodes} {above : List Label}
      → Way children above l below
      → Way (more (node n children) ns) (n ∷ above) l below
  past :
      {l : Label} {n : Node} {ns below : Nodes} {above : List Label}
      → Way ns above l below
      → Way (more n ns) above l below

Way-in :
    {ms ns below : Nodes} {above : List Label} {l : Label}
    → ms ≡ ns
    → Way ms above l below
    → Way ns above l below
Way-in {below = below} {above = above} {l = l} same w = subst (λ x. Way x above l below) same w

Way-cases :
    {n l : Label} {children ns below : Nodes} {above : List Label}
    → Way (more (node n children) ns) above l below
    → ((above ≡ []) × (l ≡ n) × (below ≡ children))
      ⊎ (((above' : List Label) × (above ≡ n ∷ above') × Way children above' l below)
          ⊎ Way ns above l below)
Way-cases Way.at = inl (refl, refl, refl)
Way-cases (Way.down {above = above'} w) = inr (inl (above', refl, w))
Way-cases (Way.past w) = inr (inr w)

module _ (held : String → Bool) where
  -- A node has all that it requires, and has a child left, or is one of the things that the person may
  -- open: gated by a permission that is held, or a leaf that is not gated.
  abbrev pub shown : Label → Nodes → Bool
  shown l children =
      holds_all l.requires held
      && (nonempty (filter held children)
          || (if has_any l.permissions || has_any l.gate
              then holds_one l.permissions held || holds_one l.gate held
              else not (nonempty children)))

  filter_step :
      (n : Label) (children ns : Nodes)
      → filter held (more (node n children) ns) ≡ (
          if shown n children
          then more (node n (filter held children)) (filter held ns)
          else filter held ns)
  unfolding filter
  filter_step n children ns = ground arith

  filter_kept :
      (n : Label) (children ns : Nodes)
      → shown n children ≡ true
      → filter held (more (node n children) ns)
        ≡ more (node n (filter held children)) (filter held ns)
  filter_kept n children ns stays = ground (arith, filter_step n children ns)

  filter_dropped :
      (n : Label) (children ns : Nodes)
      → shown n children ≡ false
      → filter held (more (node n children) ns) ≡ filter held ns
  filter_dropped n children ns goes = ground (arith, filter_step n children ns)

  -- The requirements of every node above are held.
  abbrev pub open_all : List Label → Bool
  open_all above = all (λ l. holds_all l.requires held) above

  Way-nonempty :
      {ns below : Nodes} {above : List Label} {l : Label}
      → Way ns above l below
      → nonempty ns ≡ true
  Way-nonempty Way.at = refl
  Way-nonempty (Way.down w) = refl
  Way-nonempty (Way.past w) = refl

  has_child :
      (n : Label) (children : Nodes)
      → holds_all n.requires held ≡ true
      → nonempty (filter held children) ≡ true
      → shown n children ≡ true
  has_child n children free some_left = ground arith

  -- Filter never hides what a person may see: a node whose own and whose ancestors' requirements are
  -- held, and which has something left below it or may be opened itself, is in the filtered tree, in
  -- the same place, with its children filtered.
  filter_complete :
      {ns below : Nodes} {above : List Label} {l : Label}
      → Way ns above l below
      → open_all above ≡ true
      → shown l below ≡ true
      → Way (filter held ns) above l (filter held below)
  filter_complete (Way.at {n = n} {children = children} {ns = ns}) free seen =
      Way-in (sym (filter_kept n children ns seen)) Way.at
  filter_complete (Way.down {n = n} {children = children} {ns = ns} w) free seen =
      let inner = filter_complete w (and_right (holds_all n.requires held) _ free) seen in
      let stays =
        has_child n children (and_left (holds_all n.requires held) _ free) (Way-nonempty inner) in
      Way-in (sym (filter_kept n children ns stays)) (Way.down inner)
  filter_complete (Way.past {n = node n children} {ns = ns} w) free seen =
      let later = filter_complete w free seen in
      elim (Bool-cases (shown n children)) [
        | inl stays ↦ Way-in (sym (filter_kept n children ns stays)) (Way.past later)
        | inr goes ↦ Way-in (sym (filter_dropped n children ns goes)) later
      ]

  -- Filter shows nothing else: every node of the filtered tree stands in the tree in the same place,
  -- its children are filtered, the requirements of every node above it are held, and it has something
  -- left below it or may be opened itself.
  filter_sound :
      (ns : Nodes) {above : List Label} {l : Label} {left : Nodes}
      → Way (filter held ns) above l left
      → (below : Nodes) × Way ns above l below
        × (left ≡ filter held below)
        × (open_all above ≡ true)
        × (shown l below ≡ true)
  unfolding filter
  filter_sound no_nodes w = elim w [ ]
  filter_sound (more (node n children) ns) {above} {l} {left} w =
      elim (Bool-cases (shown n children)) [
        | inr goes ↦ passed (filter_sound ns (Way-in (filter_dropped n children ns goes) w))
        | inl stays ↦ elim (Way-cases (Way-in (filter_kept n children ns stays) w)) [
          | inl (top, own, kids) ↦ (children, rw (top, own) Way.at, kids, rw top refl, rw own stays)
          | inr (inl (above', split, inner)) ↦
              let (below, deeper, same, free, seen) = filter_sound children inner in
              let own = and_left (holds_all n.requires held) _ stays in
              (below, rw split (Way.down deeper), same, rw split (and_intro _ _ own free), seen)
          | inr (inr later) ↦ passed (filter_sound ns later)
        ]
      ]
    where
      passed :
          (below : Nodes) × Way ns above l below
            × (left ≡ filter held below)
            × (open_all above ≡ true)
            × (shown l below ≡ true)
          → (below : Nodes) × Way (more (node n children) ns) above l below
            × (left ≡ filter held below)
            × (open_all above ≡ true)
            × (shown l below ≡ true)
      passed (below, w, same, free, seen) = (below, Way.past w, same, free, seen)

  shown_again :
      (n : Label) (children : Nodes)
      → filter held (filter held children) ≡ filter held children
      → shown n children ≡ true
      → shown n (filter held children) ≡ true
  shown_again n children same seen = ground (arith, ap nonempty same)

  -- Filtering a filtered tree changes nothing.
  pub filter-filter : (ns : Nodes) → filter held (filter held ns) ≡ filter held ns
  filter-filter no_nodes = unfold filter in refl
  filter-filter (more (node n children) ns) =
      let inner = filter-filter children in
      let later = filter-filter ns in
      elim (Bool-cases (shown n children)) [
        | inl stays ↦ rw (filter_kept n children ns stays) (
            filter_kept n (filter held children) (filter held ns)
              (shown_again n children inner stays)
            ∙ ap (λ kids. more (node n kids) (filter held (filter held ns))) inner
            ∙ ap (more (node n (filter held children))) later)
        | inr goes ↦ rw (filter_dropped n children ns goes) later
      ]

  -- Filter shows exactly what a person may see: a node stands in the filtered tree, under these nodes
  -- and with this below it, exactly when it stands there in the tree, the requirements of every node
  -- above it are held, it has something left below it or may be opened itself, and what it has below
  -- it is what Filter leaves of its children.
  pub filter-Way :
      (ns : Nodes) (above : List Label) (l : Label) (left : Nodes)
      → Way (filter held ns) above l left ↔ (
          (below : Nodes) × Way ns above l below
          × (left ≡ filter held below)
          × (open_all above ≡ true)
          × (shown l below ≡ true))
  filter-Way ns above l left = (
    filter_sound ns,
    λ (below, w, same, free, seen).
        subst (Way (filter held ns) above l) (sym same) (filter_complete w free seen),
  )
