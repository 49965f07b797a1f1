-- ===== src/Tree/Links.antt =====
-- The links of the nodes of a directory are a list.
use exfat.Prelude.{
  ◌≡◌, ◌≢◌, refl, sym, subst, ◌∙◌, ◌⊎◌, true, false, some, List, [], ◌∷◌, arith, ◌==◌,
  if◌then◌else◌, Bool-cases, inl, inr,
}
use exfat.Tree.{Ptr, null, Inode, Heap}
use exfat.Tree.References.{edit}

-- And of none at NULL.
abbrev pub edit_real : Ptr → (Inode → Inode) → Heap → Heap
edit_real p f h = if p == null then h else edit p f h

pub edit_self :
    (p : Ptr) (f : Inode → Inode) (h : Heap) (i : Inode) → h p ≡ some i → edit p f h p ≡ some (f i)
unfolding edit
edit_self p f h i e = let same : (p == p) ≡ true = ground arith in rw (same, e) refl

pub edit_ne : (p : Ptr) (f : Inode → Inode) (h : Heap) (a : Ptr) → a ≢ p → edit p f h a ≡ h a
unfolding edit
edit_ne p f h a apart = let other : (a == p) ≡ false = ground (arith, apart) in rw other refl

pub edit_real_ne :
    (p : Ptr) (f : Inode → Inode) (h : Heap) (a : Ptr) → a ≢ p → edit_real p f h a ≡ h a
edit_real_ne p f h a apart = elim (Bool-cases (p == null)) [
  | inl e ↦ rw e refl
  | inr e ↦ rw e (edit_ne p f h a apart)
]

abbrev pub Absent : Ptr → List Ptr → Type 0
Absent a [] = Unit {0}
Absent a (x ∷ xs) = (a ≢ x) × Absent a xs

abbrev pub Present : Ptr → List Ptr → Type 0
Present a [] = ⊥
Present a (x ∷ xs) = (a ≡ x) ⊎ Present a xs

unfoldable pub remove : Ptr → List Ptr → List Ptr
remove a [] = []
remove a (x ∷ xs) = if a == x then xs else x ∷ remove a xs

-- The nodes from the second argument on, behind the first, are distinct, have the parent `dir`, and are
-- linked both ways.
pub data Linked (h : Heap) (dir : Ptr) : Ptr → Ptr → List Ptr → Type 0 where
  nil : {prev : Ptr} → Linked h dir prev null []
  cons :
      {prev p : Ptr} {i : Inode} {xs : List Ptr}
      → p ≢ null
      → h p ≡ some i
      → i.parent ≡ dir
      → i.prev ≡ prev
      → Absent p xs
      → Linked h dir p i.next xs
      → Linked h dir prev p (p ∷ xs)

-- The nodes of a directory.
pub record IsChildren (h : Heap) (dir : Ptr) (xs : List Ptr) : Type 0 where
  pub inode : Inode
  pub real : dir ≢ null
  pub holds : h dir ≡ some inode
  pub apart : Absent dir xs
  pub links : Linked h dir null inode.child xs

abbrev pub set_prev : Ptr → Inode → Inode
set_prev q i = record i { prev = q }

pub frame_edit :
    {h : Heap} {dir prev p : Ptr} {xs : List Ptr} (b : Ptr) (f : Inode → Inode)
    → Linked h dir prev p xs
    → Absent b xs
    → Linked (edit b f h) dir prev p xs
frame_edit b f nil away = nil
frame_edit {h} b f (cons {p} real e up back alone rest) away =
    cons real (edit_ne b f h p (λ s. away.0 (sym s)) ∙ e) up back alone (frame_edit b f rest away.1)

pub frame_edit_real :
    {h : Heap} {dir prev p : Ptr} {xs : List Ptr} (b : Ptr) (f : Inode → Inode)
    → Linked h dir prev p xs
    → Absent b xs
    → Linked (edit_real b f h) dir prev p xs
frame_edit_real b f l away = elim (Bool-cases (b == null)) [
  | inl e ↦ rw e l
  | inr e ↦ rw e (frame_edit b f l away)
]

-- The first of the nodes is linked back to another.
pub relink :
    {h : Heap} {dir prev p : Ptr} {xs : List Ptr} (q : Ptr)
    → Linked h dir prev p xs
    → Linked (edit_real p (set_prev q) h) dir q p xs
relink q nil = nil
relink {h} {dir} q (cons {p} {i} {xs} real e up back alone rest) =
    let some_node : (p == null) ≡ false = ground (arith, real) in
    subst (λ g. Linked g dir q p (p ∷ xs)) (rw some_node refl)
      (cons real (edit_self p (set_prev q) h i e) up refl alone
        (frame_edit p (set_prev q) rest alone))

pub head_apart :
    {h : Heap} {dir prev p : Ptr} {xs : List Ptr} (a : Ptr)
    → a ≢ null
    → Linked h dir prev p xs
    → Absent a xs
    → a ≢ p
head_apart a real nil away = real
head_apart a real (cons r e up back alone rest) away = away.0

pub head_holds :
    {h : Heap} {dir prev p : Ptr} {xs : List Ptr}
    → Linked h dir prev p xs
    → p ≢ null
    → (j : Inode) × (h p ≡ some j)
head_holds nil real = absurd (real refl)
head_holds (cons {i} r e up back alone rest) real = (i, e)

abbrev pub set_next : Ptr → Inode → Inode
set_next q i = record i { next = q }

abbrev pub set_parent : Ptr → Inode → Inode
set_parent q i = record i { parent = q }

abbrev pub set_child : Ptr → Inode → Inode
set_child q i = record i { child = q }
