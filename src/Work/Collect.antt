-- ===== src/Work/Collect.antt =====
-- packages/scheduler/work_adapter.go: what the loop over the items leaves.
use mathlib.Core.Bool.{true≢false}
use mathlib.Core.List.{Memᴰ, append_assoc, append-nil}
use dev_plane.Prelude.{
  true, false, ◌≡◌, refl, sym, ◌∙◌, ap, ◌⊎◌, inl, inr, some, List, [], ◌∷◌, ◌++◌, map, ok,
  ok-injective, >>=-eq-ok, arith, Bool-cases, fail_if,
}
use dev_plane.Prelude.Int.{ℤ}
use dev_plane.Prelude.Float.{Float}
use dev_plane.Text.{Text, text_eq, mem_text, text_eq_iff, text_eq_refl, trim_space, Distinct}
use dev_plane.Protocol.{WorkItem}
use dev_plane.Scheduler.{Task, State, Status, set_status}
use dev_plane.Work.Defs.{item_status, work_task, collect, checked_item, draft_item, is_draft}

-- the entry of an id is that of an item with this id
pub record Entry (now : ℤ) (ws : List WorkItem) (state : State) (id : Text) : Type 0 where
  pub item : WorkItem
  pub here : Memᴰ item ws
  pub named : item.id ≡ id
  pub status : Status
  pub written : state id ≡ some status
  pub stated : item_status item now ≡ ok status

set_status_here :
    (state : State) (id : Text) (s : Status) (k : Text)
    → text_eq k id ≡ true
    → set_status state id s k ≡ some s
unfolding set_status
set_status_here state id s k e = rw e refl

set_status_other :
    (state : State) (id : Text) (s : Status) (k : Text)
    → text_eq k id ≡ false
    → set_status state id s k ≡ state k
unfolding set_status
set_status_other state id s k e = rw e refl

-- texts that differ when trimmed differ
apart : (x y : Text) → text_eq (trim_space x) (trim_space y) ≡ false → text_eq x y ≡ false
apart x y h = elim (Bool-cases (text_eq x y)) [
  | inl e ↦
      let same = ap trim_space ((text_eq_iff x y).0 e) in
      absurd (true≢false (sym ((text_eq_iff (trim_space x) (trim_space y)).1 same) ∙ h))
  | inr e ↦ e
]

module _ {F : Type 0} ⦃fl : Float F⦄ (now : ℤ) where
  -- the first step of the loop, and the rest
  collect-cons :
      (w : WorkItem) (ws : List WorkItem) (tasks : List (Task F)) (state : State)
      (c : List (Task F) × State)
      → collect now (w ∷ ws) tasks state ≡ ok c
      → (s : Status) × (item_status w now ≡ ok s)
        × (collect now ws (tasks ++ work_task w ∷ []) (set_status state w.id s) ≡ ok c)
  unfolding collect
  collect-cons w ws tasks state c h =
      let (u, valid, h1) = >>=-eq-ok (checked_item w) _ h in
      let (v, kept, h2) = >>=-eq-ok (fail_if (is_draft w.state) (draft_item w.id)) _ h1 in
      >>=-eq-ok (item_status w now) _ h2

  pub collect-tasks :
      (ws : List WorkItem) (tasks : List (Task F)) (state : State) (c : List (Task F) × State)
      → collect now ws tasks state ≡ ok c
      → c.0 ≡ tasks ++ map work_task ws
  unfolding collect
  collect-tasks [] tasks state c h =
      ap (λ (p : List (Task F) × State). p.0) (sym (ok-injective h)) ∙ sym (append-nil tasks)
  collect-tasks (w ∷ ws) tasks state c h =
      let (s, stated, rest) = collect-cons w ws tasks state c h in
      collect-tasks ws (tasks ++ work_task w ∷ []) (set_status state w.id s) c rest
      ∙ append_assoc tasks (work_task w ∷ []) (map work_task ws)

  pub collect-Entry :
      (ws : List WorkItem) (tasks : List (Task F)) (state : State) (c : List (Task F) × State)
      (id : Text)
      → collect now ws tasks state ≡ ok c
      → (c.1 id ≡ state id) ⊎ Entry now ws c.1 id
  unfolding collect
  collect-Entry [] tasks state c id h =
      inl (ap (λ (p : List (Task F) × State). p.1 id) (sym (ok-injective h)))
  collect-Entry (w ∷ ws) tasks state c id h =
      let (s, stated, rest) = collect-cons w ws tasks state c h in
      elim (collect-Entry ws (tasks ++ work_task w ∷ []) (set_status state w.id s) c id rest) [
        | inr e ↦ inr (record {
          item = e.item;
          here = Memᴰ.tail e.here;
          named = e.named;
          status = e.status;
          written = e.written;
          stated = e.stated;
        })
        | inl old ↦ elim (Bool-cases (text_eq id w.id)) [
          | inl same ↦ inr (record {
            item = w;
            here = Memᴰ.head refl;
            named = sym ((text_eq_iff id w.id).0 same);
            status = s;
            written = old ∙ set_status_here state w.id s id same;
            stated = stated;
          })
          | inr other ↦ inl (old ∙ set_status_other state w.id s id other)
        ]
      ]

  -- An id that no later item has keeps its entry.
  collect-keeps :
      (ws : List WorkItem) (tasks : List (Task F)) (state : State) (c : List (Task F) × State)
      (id : Text)
      → collect now ws tasks state ≡ ok c
      → mem_text (trim_space id) (map (λ w. trim_space w.id) ws) ≡ false
      → c.1 id ≡ state id
  unfolding collect mem_text
  collect-keeps [] tasks state c id h absent =
      ap (λ (p : List (Task F) × State). p.1 id) (sym (ok-injective h))
  collect-keeps (w ∷ ws) tasks state c id h absent =
      let (s, stated, rest) = collect-cons w ws tasks state c h in
      collect-keeps ws (tasks ++ work_task w ∷ []) (set_status state w.id s) c id rest
        (ground arith)
      ∙ set_status_other state w.id s id (apart id w.id (ground arith))

  -- Where the trimmed ids are distinct, every item has its own entry.
  pub collect-stated :
      (ws : List WorkItem) (tasks : List (Task F)) (state : State) (c : List (Task F) × State)
      → collect now ws tasks state ≡ ok c
      → Distinct (map (λ w. trim_space w.id) ws)
      → (w : WorkItem) → Memᴰ w ws
      → (s : Status) × (item_status w now ≡ ok s) × (c.1 w.id ≡ some s)
  collect-stated [] tasks state c h d w i = elim i [ ]
  collect-stated (v ∷ ws) tasks state c h d w i =
      let (s, stated, rest) = collect-cons v ws tasks state c h in
      let kept =
        collect-keeps ws (tasks ++ work_task v ∷ []) (set_status state v.id s) c v.id rest d.0 in
      elim i [
        | Memᴰ.head e ↦
            rw e (s, stated, kept ∙ set_status_here state v.id s v.id (text_eq_refl v.id))
        | Memᴰ.tail j ↦
            collect-stated ws (tasks ++ work_task v ∷ []) (set_status state v.id s) c rest d.1 w j
      ]
