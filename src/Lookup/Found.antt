-- ===== src/Lookup/Found.antt =====
-- What a search of a directory finds, and the references that it leaves.
use exfat.Prelude.{
  ℕ, zero, suc, ◌<◌, ◌≡◌, ◌≢◌, refl, sym, ap, subst, ◌∙◌, true, false, Option, none, some, List, [],
  ◌∷◌, arith, ◌==◌, if◌then◌else◌, Bool-cases, inl, inr, length,
}
use exfat.Prelude.Int.{ℤ}
use exfat.Prelude.Effect.{Outcome, enoent, failed, done, Op, ◌>>=◌, ◌>>◌, pure, raise, gets, branch}
use exfat.Prelude.Effect.Steps.{bind_done, then_done, branch-true, branch-false}
use exfat.Bitmap.{Endian}
use exfat.Chain.{Device}
use exfat.Tree.{Ptr, null, Inode, Heap, Fs, load, get_node, put_node}
use exfat.Tree.References.{
  IsQuiet, edit, more, raise_refs, lower_refs-raise_refs, lower_refs-raise_refs_two, with_heap,
  referred, load_done, get_node_done, put_node_done,
}
use exfat.Lookup.Walk.{
  same_name, Iterator, closedir, move_to, next_entry, compare_entry, visit, find_name,
}

-- The addresses and names of the nodes that follow each other from `p` on.
pub data Listed (h : Heap) : Ptr → List (Ptr × List ℕ) → Type 0 where
  ended : Listed h null []
  entry :
      {p : Ptr} {i : Inode} {xs : List (Ptr × List ℕ)}
      → p ≢ null
      → h p ≡ some i
      → IsQuiet i.node
      → Listed h i.next xs
      → Listed h p ((p, i.node.name) ∷ xs)

-- A directory whose nodes are in memory.
pub record IsDirectory (h : Heap) (dir : Ptr) (xs : List (Ptr × List ℕ)) : Type 0 where
  pub inode : Inode
  pub real : dir ≢ null
  pub holds : h dir ≡ some inode
  pub cached : inode.node.is_cached ≡ true
  pub quiet : IsQuiet inode.node
  pub nodes : Listed h inode.child xs

-- The first node of a name.
unfoldable pub first_match : List ℕ → List ℕ → List (Ptr × List ℕ) → Option Ptr
first_match upcase name [] = none
first_match upcase name ((p, entry_name) ∷ xs) =
    let rest = first_match upcase name xs in
    if same_name upcase name entry_name then some p else rest

-- What raising the counter of `p` leaves of the node at `q`.
pub record Raised (p q : Ptr) (h : Heap) (i : Inode) : Type 0 where
  pub inode : Inode
  pub holds : raise_refs p h q ≡ some inode
  pub same_child : inode.child ≡ i.child
  pub same_next : inode.next ≡ i.next
  pub keeps_name : inode.node.name ≡ i.node.name
  pub same_cached : inode.node.is_cached ≡ i.node.is_cached
  pub referred_to : q ≡ p → inode.node.references ≢ 0
  pub quiet : IsQuiet i.node → IsQuiet inode.node
  pub still : i.node.references ≢ 0 → inode.node.references ≢ 0

pub raise_refs-Raised : (p q : Ptr) (h : Heap) (i : Inode) → h q ≡ some i → Raised p q h i
unfolding edit
raise_refs-Raised p q h i e = elim (Bool-cases (q == p)) [
  | inl here ↦ record {
    inode = more i;
    holds = rw (here, e) refl;
    same_child = refl;
    same_next = refl;
    keeps_name = refl;
    same_cached = refl;
    referred_to = λ s. omega arith;
    quiet = λ q. q;
    still = λ n. omega arith;
  }
  | inr away ↦ record {
    inode = i;
    holds = rw (away, e) refl;
    same_child = refl;
    same_next = refl;
    keeps_name = refl;
    same_cached = refl;
    referred_to = λ s. absurd (ground (arith, s, away));
    quiet = λ q. q;
    still = λ n. n;
  }
]

pub Listed-raise_refs :
    (a : Ptr) (h : Heap) {p : Ptr} {xs : List (Ptr × List ℕ)}
    → Listed h p xs
    → Listed (raise_refs a h) p xs
Listed-raise_refs a h ended = ended
Listed-raise_refs a h (entry {p} {i} {xs} real e quiet rest) =
    let r = raise_refs-Raised a p h i e in
    subst (λ n. Listed (raise_refs a h) p ((p, n) ∷ xs)) r.keeps_name
      (entry real r.holds (r.quiet quiet)
        (subst (λ q. Listed (raise_refs a h) q xs) (sym r.same_next) (Listed-raise_refs a h rest)))

pub IsDirectory-raise_refs :
    (a : Ptr) {h : Heap} {dir : Ptr} {xs : List (Ptr × List ℕ)}
    → IsDirectory h dir xs
    → IsDirectory (raise_refs a h) dir xs
IsDirectory-raise_refs a {h} {dir} {xs} d =
    let r = raise_refs-Raised a dir h d.inode d.holds in
    record {
      inode = r.inode;
      real = d.real;
      holds = r.holds;
      cached = r.same_cached ∙ d.cached;
      quiet = r.quiet d.quiet;
      nodes =
          subst (λ q. Listed (raise_refs a h) q xs) (sym r.same_child)
            (Listed-raise_refs a h d.nodes);
    }

module _ (D : Device) where
  -- What a search ends in, from the volume `s` without the references that it holds on the way.
  abbrev pub found_in : Fs D → Option Ptr → Outcome (Fs D) Ptr
  found_in s none = failed enoent s
  found_in s (some p) = done p (referred D s p)

  -- A reference is given back.
  pub put_back_lem :
      (s : Fs D) (p : Ptr) (i : Inode)
      → p ≢ null
      → s.heap p ≡ some i
      → IsQuiet i.node
      → put_node D p (referred D s p) ≡ done tt s
  put_back_lem s p i real e quiet =
      let r = raise_refs-Raised p p s.heap i e in
      put_node_done D p (referred D s p) r.inode real r.holds (r.referred_to refl) (r.quiet quiet)
      ∙ ap (λ h. done tt (with_heap D s h)) (lower_refs-raise_refs p s.heap)

  -- It is given back after another was taken.
  pub put_back_two :
      (s : Fs D) (p q : Ptr) (i : Inode)
      → p ≢ null
      → s.heap p ≡ some i
      → IsQuiet i.node
      → put_node D p (referred D (referred D s p) q) ≡ done tt (referred D s q)
  put_back_two s p q i real e quiet =
      let r = raise_refs-Raised p p s.heap i e in
      let r' = raise_refs-Raised q p (raise_refs p s.heap) r.inode r.holds in
      put_node_done D p (referred D (referred D s p) q) r'.inode real r'.holds
        (r'.still (r.referred_to refl)) (r'.quiet (r.quiet quiet))
      ∙ ap (λ h. done tt (with_heap D s h)) (lower_refs-raise_refs_two p q s.heap)

  -- The iterator stands before `p` in its directory.
  pub record IsBefore (t : Fs D) (it : Iterator) (p : Ptr) : Type 0 where
    pub inode : Inode
    pub real : (if it.current == null then it.parent else it.current) ≢ null
    pub holds : t.heap (if it.current == null then it.parent else it.current) ≡ some inode
    pub leads : (if it.current == null then inode.child else inode.next) ≡ p

  next_entry_lem :
      (t : Fs D) (it : Iterator) (p : Ptr) → IsBefore t it p → next_entry D it t ≡ move_to D it p t
  unfolding next_entry
  next_entry_lem t it p b =
      bind_done (load D (if it.current == null then it.parent else it.current))
        (λ i. move_to D it (if it.current == null then i.child else i.next)) t t b.inode
        (load_done D (if it.current == null then it.parent else it.current) t b.inode b.real
          b.holds)
      ∙ ap (λ q. move_to D it q t) b.leads

  move_to-null :
      (t : Fs D) (it : Iterator) → move_to D it null t ≡ done (record it { current = null }) t
  unfolding move_to branch pure ◌>>◌ ◌>>=◌
  move_to-null t it = refl

  move_to_node :
      (t : Fs D) (it : Iterator) (p : Ptr) (i : Inode)
      → p ≢ null
      → t.heap p ≡ some i
      → move_to D it p t ≡ done (record it { current = p }) (referred D t p)
  unfolding move_to pure
  move_to_node t it p i real e =
      let there : (p == 0) ≡ false = ground (arith, real) in
      then_done (branch (λ s. p == null) (pure tt) (get_node D p))
        (pure (record it { current = p })) t (referred D t p) tt
        (branch-false (λ s. p == null) (pure tt) (get_node D p) t there
          ∙ get_node_done D p t i real e)

  module _ (e : Endian) (now : ℤ) (fuel : ℕ) (s : Fs D) (dir : Ptr) (d : Inode) (real : dir ≢ null)
      (holds : s.heap dir ≡ some d) (d_quiet : IsQuiet d.node) (name : List ℕ) where
    abbrev pub at : Ptr → Iterator
    at p = record { parent = dir; current = p }

    abbrev pub held : Fs D
    held = referred D s dir

    abbrev again : ℕ → Iterator → Op (Fs D) Ptr
    again n = find_name D e now fuel n name

    visit_end : (n : ℕ) → visit D e now fuel (again n) name (at null) held ≡ failed enoent s
    unfolding visit raise closedir
    visit_end n =
        branch-true (λ t. 0 == 0) (closedir D (at null) >> raise enoent)
          (load D 0 >>= λ i. compare_entry D e now fuel (again n) name (at null) i.node.name) held
          refl
        ∙ then_done (closedir D (at null)) (raise enoent) held s tt
            (put_back_lem s dir d real holds d_quiet)

    module _ (p : Ptr) (i : Inode) (there : p ≢ null) (here : s.heap p ≡ some i)
        (quiet : IsQuiet i.node) where
      first : Raised dir p s.heap i
      first = raise_refs-Raised dir p s.heap i here

      second : Raised p p (raise_refs dir s.heap) first.inode
      second = raise_refs-Raised p p (raise_refs dir s.heap) first.inode first.holds

      IsBefore-next : IsBefore held (at p) i.next
      IsBefore-next =
          let some_node : (p == 0) ≡ false = ground (arith, there) in
          record {
            inode = first.inode;
            real = rw some_node there;
            holds = rw some_node first.holds;
            leads = rw some_node first.same_next;
          }

      visit_node :
          (n : ℕ)
          → visit D e now fuel (again n) name (at p) (referred D held p)
            ≡ compare_entry D e now fuel (again n) name (at p) i.node.name (referred D held p)
      unfolding visit
      visit_node n =
          let some_node : (p == 0) ≡ false = ground (arith, there) in
          branch-false (λ t. p == 0) (closedir D (at p) >> raise enoent)
            (load D p >>= λ i'. compare_entry D e now fuel (again n) name (at p) i'.node.name)
            (referred D held p) some_node
          ∙ bind_done (load D p)
              (λ i'. compare_entry D e now fuel (again n) name (at p) i'.node.name)
              (referred D held p) (referred D held p) second.inode
              (load_done D p (referred D held p) second.inode there second.holds)
          ∙ ap (λ m. compare_entry D e now fuel (again n) name (at p) m (referred D held p))
              (second.keeps_name ∙ first.keeps_name)

      compare_same :
          (n : ℕ)
          → same_name s.volume.upcase name i.node.name ≡ true
          → compare_entry D e now fuel (again n) name (at p) i.node.name (referred D held p)
            ≡ done p (referred D s p)
      unfolding compare_entry gets ◌>>=◌ pure closedir
      compare_same n same =
          branch-true (λ t. same_name s.volume.upcase name i.node.name)
            (closedir D (at p) >> pure p) (put_node D p >> again n (at p)) (referred D held p) same
          ∙ then_done (closedir D (at p)) (pure p) (referred D held p) (referred D s p) tt
              (put_back_two s dir p d real holds d_quiet)

      compare_other :
          (n : ℕ)
          → same_name s.volume.upcase name i.node.name ≡ false
          → compare_entry D e now fuel (again n) name (at p) i.node.name (referred D held p)
            ≡ again n (at p) held
      unfolding compare_entry gets ◌>>=◌
      compare_other n other =
          branch-false (λ t. same_name s.volume.upcase name i.node.name)
            (closedir D (at p) >> pure p) (put_node D p >> again n (at p)) (referred D held p) other
          ∙ then_done (put_node D p) (again n (at p)) (referred D held p) held tt
              (put_back_lem held p first.inode there first.holds (first.quiet quiet))

    pub find_name_lem :
        (n : ℕ) (c : Ptr) {p : Ptr} {xs : List (Ptr × List ℕ)}
        → IsBefore held (at c) p
        → Listed s.heap p xs
        → length xs < n
        → find_name D e now fuel n name (at c) held
          ≡ found_in s (first_match s.volume.upcase name xs)
    unfolding find_name first_match
    find_name_lem zero c before list enough = absurd (omega arith)
    find_name_lem (suc n) c before ended enough =
        bind_done (next_entry D (at c)) (visit D e now fuel (again n) name) held held (at null)
          (next_entry_lem held (at c) null before ∙ move_to-null held (at c))
        ∙ visit_end n
    find_name_lem (suc n) c before (entry {p} {i} {xs} there here quiet rest) enough =
        bind_done (next_entry D (at c)) (visit D e now fuel (again n) name) held (referred D held p)
          (at p)
          (next_entry_lem held (at c) p before
            ∙ move_to_node held (at c) p (first p i there here quiet).inode there
                (first p i there here quiet).holds)
        ∙ visit_node p i there here quiet n
        ∙ elim (Bool-cases (same_name s.volume.upcase name i.node.name)) [
          | inl same ↦ compare_same p i there here quiet n same ∙ rw same refl
          | inr other ↦
              compare_other p i there here quiet n other
              ∙ find_name_lem n p (IsBefore-next p i there here quiet) rest (omega arith)
              ∙ rw other refl
        ]
