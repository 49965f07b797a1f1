-- ===== src/Tree/Bypassed.antt =====
-- The links of a directory once the nodes beside one lead past it: tree_detach of libexfat/node.c.
use mathlib.Core.Option.{some-injective}
use exfat.Prelude.{
  ◌≡◌, ◌≢◌, refl, sym, ap, subst, ◌∙◌, true, false, some, List, [], ◌∷◌, arith, ◌==◌, if◌then◌else◌,
  Bool-cases, ==→eq, ==→ne, inl, inr,
}
use exfat.Tree.{Ptr, null, Inode, Heap}
use exfat.Tree.References.{edit}
use exfat.Tree.Links.{
  edit_self, edit_ne, edit_real, edit_real_ne, Absent, Present, remove, Linked, cons, set_prev,
  set_next, set_child, frame_edit, relink, head_apart, head_holds,
}

pub Absent-remove : (a b : Ptr) (xs : List Ptr) → Absent a xs → Absent a (remove b xs)
unfolding remove
Absent-remove a b [] h = tt
Absent-remove a b (x ∷ xs) h = elim (Bool-cases (b == x)) [
  | inl e ↦ rw e (h.1)
  | inr e ↦ rw e (h.0, Absent-remove a b xs h.1)
]

-- Another node than the first is among the rest.
pub remove_ne : (a x : Ptr) (xs : List Ptr) → a ≢ x → remove a (x ∷ xs) ≡ x ∷ remove a xs
unfolding remove
remove_ne a x xs apart =
    let other : (a == x) ≡ false = ground (arith, apart) in rw (remove, other) refl

pub remove_self : (a : Ptr) (xs : List Ptr) → remove a (a ∷ xs) ≡ xs
unfolding remove
remove_self a xs = let same : (a == a) ≡ true = ground arith in rw (remove, same) refl

-- The node before the detached one, or the directory, leads on; the one behind leads back.
abbrev pub bypassed : Inode → Heap → Heap
bypassed i h =
    edit_real i.next (set_prev i.prev) (
      if i.prev == null
      then edit i.parent (set_child i.next) h
      else edit i.prev (set_next i.next) h)

abbrev pub alone_now : Inode → Inode
alone_now i = record i { parent = null; prev = null; next = null }

pub same_inode : (h : Heap) (p : Ptr) {i j : Inode} → h p ≡ some i → h p ≡ some j → j ≡ i
same_inode h p e e' = some-injective _ _ (sym e' ∙ e)

pub Present-ne : (a b : Ptr) (xs : List Ptr) → Absent a xs → Present b xs → b ≢ a
Present-ne a b [] away there = absurd there
Present-ne a b (x ∷ xs) away (inl here) = λ q. away.0 (sym q ∙ here)
Present-ne a b (x ∷ xs) away (inr there) = Present-ne a b xs away.1 there

-- The first of the nodes, and those behind it.
pub record Uncons (h : Heap) (dir prev p : Ptr) (xs : List Ptr) : Type 0 where
  pub inode : Inode
  pub real : p ≢ null
  pub holds : h p ≡ some inode
  pub up : inode.parent ≡ dir
  pub back : inode.prev ≡ prev
  pub alone : Absent p xs
  pub rest : Linked h dir p inode.next xs

pub uncons :
    {h : Heap} {dir prev q p : Ptr} {xs : List Ptr}
    → Linked h dir prev q (p ∷ xs)
    → (q ≡ p) × Uncons h dir prev p xs
uncons (cons {i} real e up back alone rest) = (
  refl,
  record { inode = i; real = real; holds = e; up = up; back = back; alone = alone; rest = rest },
)

-- It exists, unless it is NULL.
abbrev pub There : Heap → Ptr → Type 0
There h p = (j : Inode) × (h p ≡ some j)

pub edit-There :
    (p : Ptr) (f : Inode → Inode) (h : Heap) (a : Ptr) → There h a → There (edit p f h) a
edit-There p f h a (j, e) = elim (Bool-cases (a == p)) [
  | inl here ↦ (f j, self_there here)
  | inr away ↦ (j, edit_ne p f h a (==→ne a p away) ∙ e)
]
  where
    self_there : (a == p) ≡ true → edit p f h a ≡ some (f j)
    self_there here =
        let same = ==→eq a p here in ap (edit p f h) same ∙ edit_self p f h j (ap h (sym same) ∙ e)

-- The nodes from `p` on, of which one that is not the first is bypassed.
pub record Bypassed (h : Heap) (dir prev p : Ptr) (xs : List Ptr) (node : Ptr) (i : Inode)
    : Type 0 where
  pub links : Linked (bypassed i h) dir prev p (p ∷ remove node xs)
  pub has_prev : i.prev ≢ null
  pub prev_there : There h i.prev
  pub next_there : i.next ≢ null → There h i.next
  pub among : (b : Ptr) → b ≢ null → Absent b (p ∷ xs) → (b ≢ i.prev) × (b ≢ i.next)
  pub self : (node ≢ i.prev) × (node ≢ i.next)
  pub gone : Absent node (p ∷ remove node xs)

pub bypassed_ne :
    (i : Inode) (h : Heap) (a : Ptr)
    → i.prev ≢ null
    → a ≢ i.prev
    → a ≢ i.next
    → bypassed i h a ≡ h a
bypassed_ne i h a has_prev apart apart' =
    let some_prev : (i.prev == null) ≡ false = ground (arith, has_prev) in
    edit_real_ne i.next (set_prev i.prev) _ a apart'
    ∙ rw some_prev (edit_ne i.prev (set_next i.next) h a apart)

-- The node behind the first is bypassed.
Bypassed-second :
    (h : Heap) (dir prev p x : Ptr) (xs : List Ptr) (u : Uncons h dir prev p (x ∷ xs))
    (v : Uncons h dir p x xs)
    → Bypassed h dir prev p (x ∷ xs) x v.inode
Bypassed-second h dir prev p x xs u v =
    let k = v.inode in
    let some_p : (p == null) ≡ false = ground (arith, u.real) in
    let same : edit_real k.next (set_prev p) (edit p (set_next k.next) h) ≡ bypassed k h =
      rw (v.back, some_p) refl in
    let left =
      cons u.real
        (edit_real_ne k.next (set_prev p) (edit p (set_next k.next) h) p
            (head_apart p u.real v.rest u.alone.1)
          ∙ edit_self p (set_next k.next) h u.inode u.holds)
        u.up u.back u.alone.1 (relink p (frame_edit p (set_next k.next) v.rest u.alone.1)) in
    record {
      links =
          subst (λ ys. Linked (bypassed k h) dir prev p (p ∷ ys)) (sym (remove_self x xs))
            (subst (λ g. Linked g dir prev p (p ∷ xs)) same left);
      has_prev = λ q. u.real (sym v.back ∙ q);
      prev_there = (u.inode, ap h v.back ∙ u.holds);
      next_there = head_holds v.rest;
      among = λ b real away. (λ q. away.0 (q ∙ v.back), head_apart b real v.rest away.1.1);
      self = (λ q. u.alone.0 (sym v.back ∙ sym q), head_apart x v.real v.rest v.alone);
      gone = (λ q. u.alone.0 (sym q), subst (Absent x) (sym (remove_self x xs)) v.alone);
    }

pub Bypassed_lem :
    (h : Heap) (dir prev p node : Ptr) (xs : List Ptr) (i : Inode)
    → Uncons h dir prev p xs
    → h node ≡ some i
    → Present node xs
    → Bypassed h dir prev p xs node i
Bypassed_lem h dir prev p node [] i u e there = absurd there
Bypassed_lem h dir prev p node (x ∷ xs) i u e there =
    let (to_x, v) = uncons u.rest in
    elim (Bool-cases (node == x)) [
      | inl here ↦
          let same = ==→eq node x here in
          subst (λ y. Bypassed h dir prev p (x ∷ xs) y i) (sym same)
            (subst (Bypassed h dir prev p (x ∷ xs) x) (same_inode h x (ap h (sym same) ∙ e) v.holds)
              (Bypassed-second h dir prev p x xs u v))
      | inr other ↦
          let later = ==→ne node x other in
          let b =
            Bypassed_lem h dir p x node xs i v e
              (elim there [ inl q ↦ absurd (later q) | inr t ↦ t ]) in
          let left_alone = b.among p u.real u.alone in
          let list = sym (remove_ne node x xs later) in
          record {
            links =
                subst (λ ys. Linked (bypassed i h) dir prev p (p ∷ ys)) list
                  (cons u.real (bypassed_ne i h p b.has_prev left_alone.0 left_alone.1 ∙ u.holds)
                    u.up u.back (u.alone.0, Absent-remove p node xs u.alone.1)
                    (subst (λ q. Linked (bypassed i h) dir p q (x ∷ remove node xs)) (sym to_x)
                      b.links));
            has_prev = b.has_prev;
            prev_there = b.prev_there;
            next_there = b.next_there;
            among = λ c real away. b.among c real away.1;
            self = b.self;
            gone = (Present-ne p node (x ∷ xs) u.alone there, subst (Absent node) list b.gone);
          }
    ]
