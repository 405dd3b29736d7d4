-- ===== src/Policy/Groups/Invariant.antt =====
-- The invariant of the walk of `expand_group_leaves`, and its rounds.
use nix_seal.Prelude.{
  suc, ◌≤◌, ◌≡◌, ap, ◌⊎◌, inl, inr, true, false, some, List, [], ◌∷◌, length, arith, split_or,
  subst, Bool-cases,
}
use nix_seal.Prelude.Text.{text_ord}
use nix_seal.Prelude.Collections.{contains, map_get}
use nix_seal.Core.Id.{Identifier}
use nix_seal.Core.Plan.{PlanV2, Group}
use nix_seal.Policy.Groups.{Expansion, is_group, offer_all}
use nix_seal.Policy.Groups.Reach.{Reaches, listed, member, IsLeaf}
use nix_seal.Policy.Groups.Offer.{
  work, leaves-offer_all, visited-offer_all, pending-offer_all, work-offer_all,
}

pub no_member : (x : Identifier) (s : List Identifier) → s ≡ [] → contains x s ≡ true → ⊥
unfolding contains
no_member x [] e h = cc
no_member x (y ∷ s) e h = cc

abbrev pub blank : Expansion
blank = record { leaves = []; pending = []; visited = [] }

pub on_top :
    (e : Expansion) (top : Identifier) (rest : List Identifier)
    → e.pending ≡ top ∷ rest
    → contains top e.pending ≡ true
unfolding contains
on_top e top rest stack = ground (arith, text_ord.eq_test_iff top top, ap (contains top) stack)

module _ (plan : PlanV2) (refs : List Identifier) where
  -- An identifier is taken care of: a group was seen, anything else is a leaf.
  abbrev pub Handled : Expansion → Identifier → Type 0
  Handled e id =
      (is_group plan id ≡ true → contains id e.visited ≡ true)
      × (is_group plan id ≡ false → contains id e.leaves ≡ true)

  pub record Inv (e : Expansion) : Type 0 where
    pub leaf :
        (id : Identifier) → contains id e.leaves ≡ true → Reaches plan refs id × IsLeaf plan id
    pub seen :
        (id : Identifier)
        → contains id e.visited ≡ true
        → Reaches plan refs id × (is_group plan id ≡ true)
    pub waiting : (id : Identifier) → contains id e.pending ≡ true → contains id e.visited ≡ true
    pub start : (id : Identifier) → contains id refs ≡ true → Handled e id
    pub closed :
        (id : Identifier) (group : Group)
        → contains id e.visited ≡ true
        → map_get id plan.groups ≡ some group
        → (contains id e.pending ≡ true)
          ⊎ ((m : Identifier) → contains m group.members ≡ true → Handled e m)

  pub Inv-start : Inv (offer_all plan blank refs)
  unfolding contains
  Inv-start = record {
    leaf = λ id m.
        let e = leaves-offer_all plan refs blank id in
        let in_refs : contains id refs ≡ true = ground arith in (listed in_refs, ground arith);
    seen = λ id m.
        let e = visited-offer_all plan refs blank id in
        let in_refs : contains id refs ≡ true = ground arith in (listed in_refs, ground arith);
    waiting = λ id m.
        ground (arith, visited-offer_all plan refs blank id, pending-offer_all plan refs blank id);
    start = λ id m. (
      λ g. ground (arith, visited-offer_all plan refs blank id),
      λ g. ground (arith, leaves-offer_all plan refs blank id),
    );
    closed = λ id group m get. inl (
        ground (arith, visited-offer_all plan refs blank id, pending-offer_all plan refs blank id));
  }

  -- What was taken care of stays so, and the pass takes care of what it is offered.
  Handled-mono :
      (rs : List Identifier) (e : Expansion) (x : Identifier)
      → Handled e x
      → Handled (offer_all plan e rs) x
  Handled-mono rs e x h = (
    λ g. ground (arith, visited-offer_all plan rs e x, h.0 g),
    λ g. ground (arith, leaves-offer_all plan rs e x, h.1 g),
  )

  Handled-offered :
      (rs : List Identifier) (e : Expansion) (x : Identifier)
      → contains x rs ≡ true
      → Handled (offer_all plan e rs) x
  Handled-offered rs e x h = (
    λ g. ground (arith, visited-offer_all plan rs e x),
    λ g. ground (arith, leaves-offer_all plan rs e x),
  )

  module _ (e : Expansion) (top : Identifier) (rest : List Identifier) (group : Group) (inv : Inv e)
      (stack : e.pending ≡ top ∷ rest) (get : map_get top plan.groups ≡ some group) where
    abbrev pub popped : Expansion
    popped = record e { pending = rest }

    abbrev pub next : Expansion
    next = offer_all plan popped group.members

    on_stack : (x : Identifier) → contains x e.pending ≡ true → (top ≡ x) ⊎ (contains x rest ≡ true)
    unfolding contains
    on_stack x m = ground (arith, text_ord.eq_test_iff top x, ap (contains x) stack)

    stacked : (x : Identifier) → contains x rest ≡ true → contains x e.pending ≡ true
    unfolding contains
    stacked x m = ground (arith, ap (contains x) stack)

    reach_member : (x : Identifier) → contains x group.members ≡ true → Reaches plan refs x
    reach_member x m = member (inv.seen top (inv.waiting top (on_top e top rest stack))).0 get m

    next-IsLeaf :
        (x : Identifier) → contains x next.leaves ≡ true → Reaches plan refs x × IsLeaf plan x
    next-IsLeaf x m =
        elim (split_or (contains x e.leaves) _ (leaves-offer_all plan group.members popped x) m) [
          | inl old ↦ inv.leaf x old
          | inr new ↦ (reach_member x (ground arith), ground arith)
        ]

    next-seen :
        (x : Identifier)
        → contains x next.visited ≡ true
        → Reaches plan refs x × (is_group plan x ≡ true)
    next-seen x m =
        elim (split_or (contains x e.visited) _ (visited-offer_all plan group.members popped x) m) [
          | inl old ↦ inv.seen x old
          | inr new ↦ (reach_member x (ground arith), ground arith)
        ]

    next-waiting :
        (x : Identifier) → contains x next.pending ≡ true → contains x next.visited ≡ true
    next-waiting x m = ground (
      arith,
      pending-offer_all plan group.members popped x,
      visited-offer_all plan group.members popped x,
      stacked x,
      inv.waiting x,
    )

    -- A group seen before is on the stack still, is the one popped, or had been dealt with.
    next-closed_old :
        (x : Identifier) (g : Group)
        → map_get x plan.groups ≡ some g
        → (contains x e.pending ≡ true)
          ⊎ ((m : Identifier) → contains m g.members ≡ true → Handled e m)
        → (contains x next.pending ≡ true)
          ⊎ ((m : Identifier) → contains m g.members ≡ true → Handled next m)
    next-closed_old x g gx (inr done) = inr (λ m h. Handled-mono group.members popped m (done m h))
    next-closed_old x g gx (inl waits) = elim (on_stack x waits) [
      | inr below ↦ inl (ground (arith, pending-offer_all plan group.members popped x))
      | inl same ↦
          let eg : g ≡ group = cc in
          inr (λ m h.
            Handled-offered group.members popped m
              (subst (λ (k : Group). contains m k.members ≡ true) eg h))
    ]

    next-closed :
        (x : Identifier) (g : Group)
        → contains x next.visited ≡ true
        → map_get x plan.groups ≡ some g
        → (contains x next.pending ≡ true)
          ⊎ ((m : Identifier) → contains m g.members ≡ true → Handled next m)
    next-closed x g m gx = elim (Bool-cases (contains x e.visited)) [
      | inl old ↦ next-closed_old x g gx (inv.closed x g old gx)
      | inr new ↦ inl (
          ground (
            arith,
            visited-offer_all plan group.members popped x,
            pending-offer_all plan group.members popped x,
          ))
    ]

    pub Inv-next : Inv next
    Inv-next = record {
      leaf = next-IsLeaf;
      seen = next-seen;
      waiting = next-waiting;
      start = λ x m. Handled-mono group.members popped x (inv.start x m);
      closed = next-closed;
    }

    pub work-next : suc (work plan next) ≤ work plan e
    work-next = omega (
      arith,
      work-offer_all plan group.members popped,
      ap (λ (l : List Identifier). length l) stack,
    )
