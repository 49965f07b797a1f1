-- ===== src/Lookup/Resolved.antt =====
-- The walk along a path, over directories that are in memory.
use exfat.Prelude.{
  ℕ, zero, suc, ◌+◌, ◌<◌, ◌≡◌, ◌≢◌, refl, sym, ap, subst, ◌∙◌, Option, none, some, List, [], ◌∷◌,
  arith, ◌==◌, Bool-cases, Option-cases, inl, inr, length,
}
use exfat.Prelude.Int.{ℤ}
use exfat.Prelude.Effect.{enoent, failed, done, Op, ◌>>=◌, ◌>>◌, pure, raise, gets, branch, recover}
use exfat.Prelude.Effect.Steps.{
  bind_done, bind_failed, then_done, branch-true, recover_done, recover_failed,
}
use exfat.Bitmap.{Endian}
use exfat.Utf.{Converted, utf8_to_utf16}
use exfat.Dirent.{name_max}
use exfat.Chain.{Device}
use exfat.Tree.{Ptr, null, Inode, Heap, Fs, load, get_node, put_node}
use exfat.Tree.Readdir.{cache_directory, cache_from}
use exfat.Tree.References.{referred, load_done, get_node_done}
use exfat.Lookup.Walk.{
  convert, name_of, get_comp, is_dot, Iterator, opendir, find_name, lookup_name, step, walk, lookup,
}
use exfat.Lookup.Components.{components, components_none, components-get_comp, length-get_comp}
use exfat.Lookup.Found.{
  IsDirectory, IsDirectory-raise_refs, raise_refs-Raised, first_match, found_in, put_back_lem,
  put_back_two, find_name_lem,
}

-- Where a list of components leads from a node, by the first node of each name: through directories
-- that are in memory and have fewer nodes than `fuel`.
pub data Resolves (h : Heap) (upcase : List ℕ) (fuel : ℕ)
    : Ptr → List (List ℕ) → Option Ptr → Type 0 where
  arrived : {p : Ptr} → Resolves h upcase fuel p [] (some p)
  missing :
      {p : Ptr} {xs : List (Ptr × List ℕ)} {comp name : List ℕ} {comps : List (List ℕ)}
      → IsDirectory h p xs
      → length xs < fuel
      → utf8_to_utf16 comp (name_max + 1) ≡ Converted.done name
      → first_match upcase name xs ≡ none
      → Resolves h upcase fuel p (comp ∷ comps) none
  enters :
      {p q : Ptr} {xs : List (Ptr × List ℕ)} {comp name : List ℕ} {comps : List (List ℕ)}
      {r : Option Ptr}
      → IsDirectory h p xs
      → length xs < fuel
      → utf8_to_utf16 comp (name_max + 1) ≡ Converted.done name
      → first_match upcase name xs ≡ some q
      → Resolves h upcase fuel q comps r
      → Resolves h upcase fuel p (comp ∷ comps) r

arrived_lem :
    {h : Heap} {upcase : List ℕ} {fuel : ℕ} {p : Ptr} {r : Option Ptr}
    → Resolves h upcase fuel p [] r
    → r ≡ some p
arrived_lem arrived = refl

module _ (D : Device) (e : Endian) (now : ℤ) (fuel : ℕ) where
  opendir_lem :
      (s : Fs D) (dir : Ptr) (xs : List (Ptr × List ℕ))
      → IsDirectory s.heap dir xs
      → opendir D e now fuel dir s
        ≡ done (record { parent = dir; current = null }) (referred D s dir)
  unfolding opendir cache_directory pure
  opendir_lem s dir xs d =
      let r = raise_refs-Raised dir dir s.heap d.inode d.holds in
      let t = referred D s dir in
      let it : Iterator = record { parent = dir; current = null } in
      let cached : cache_directory D e now fuel dir t ≡ done tt t =
        bind_done (load D dir)
          (λ i. branch (λ u. i.node.is_cached) (pure tt) (cache_from D e now fuel fuel dir 0 null))
          t t r.inode (load_done D dir t r.inode d.real r.holds)
        ∙ branch-true (λ u. r.inode.node.is_cached) (pure tt)
            (cache_from D e now fuel fuel dir 0 null) t (r.same_cached ∙ d.cached) in
      then_done (get_node D dir)
        (recover (cache_directory D e now fuel dir) (λ rc. put_node D dir >> raise rc) >> pure it) s
        t tt (get_node_done D dir s d.inode d.real d.holds)
      ∙ then_done (recover (cache_directory D e now fuel dir) (λ rc. put_node D dir >> raise rc))
          (pure it) t t tt
          (recover_done (cache_directory D e now fuel dir) (λ rc. put_node D dir >> raise rc) t t tt
            cached)

  -- A search of a directory in memory leaves the volume as it was, but for a reference to what it finds.
  pub lookup_name_lem :
      (s : Fs D) (dir : Ptr) (xs : List (Ptr × List ℕ)) (comp name : List ℕ)
      → IsDirectory s.heap dir xs
      → length xs < fuel
      → utf8_to_utf16 comp (name_max + 1) ≡ Converted.done name
      → lookup_name D e now fuel dir comp s ≡ found_in D s (first_match s.volume.upcase name xs)
  unfolding lookup_name name_of pure
  lookup_name_lem s dir xs comp name d enough converted =
      let it : Iterator = record { parent = dir; current = null } in
      let t = referred D s dir in
      let r = raise_refs-Raised dir dir s.heap d.inode d.holds in
      bind_done (convert comp) (λ n. opendir D e now fuel dir >>= find_name D e now fuel fuel n) s s
        name (ap (λ c. name_of c s) converted)
      ∙ bind_done (opendir D e now fuel dir) (find_name D e now fuel fuel name) s t it
          (opendir_lem s dir xs d)
      ∙ find_name_lem D e now fuel s dir d.inode d.real d.holds d.quiet name fuel null
          (record { inode = r.inode; real = d.real; holds = r.holds; leads = r.same_child }) d.nodes
          enough

  -- A call that is followed by giving back a reference, whether it fails or not.
  recover_then_done :
      (m : Op (Fs D) Ptr) (put : Op (Fs D) (Unit {0})) (t t' s' : Fs D) (q : Ptr)
      → m t ≡ done q t'
      → put t' ≡ done tt s'
      → (recover m (λ rc. put >> raise rc) >>= λ node. put >> pure node) t ≡ done q s'
  unfolding pure
  recover_then_done m put t t' s' q called given =
      bind_done (recover m (λ rc. put >> raise rc)) (λ node. put >> pure node) t t' q
        (recover_done m (λ rc. put >> raise rc) t t' q called)
      ∙ then_done put (pure q) t' s' tt given

  recover_then_failed :
      (m : Op (Fs D) Ptr) (put : Op (Fs D) (Unit {0})) (t t' s' : Fs D)
      → m t ≡ failed enoent t'
      → put t' ≡ done tt s'
      → (recover m (λ rc. put >> raise rc) >>= λ node. put >> pure node) t ≡ failed enoent s'
  unfolding raise
  recover_then_failed m put t t' s' called given =
      bind_failed (recover m (λ rc. put >> raise rc)) (λ node. put >> pure node) t s' enoent
        (recover_failed m (λ rc. put >> raise rc) t t' enoent called
          ∙ then_done put (raise enoent) t' s' tt given)

  -- The reference to the directory moves to what is found there.
  step_lem :
      (s : Fs D) (dir : Ptr) (xs : List (Ptr × List ℕ)) (comp name : List ℕ)
      → IsDirectory s.heap dir xs
      → length xs < fuel
      → utf8_to_utf16 comp (name_max + 1) ≡ Converted.done name
      → step D e now fuel dir comp (referred D s dir)
        ≡ found_in D s (first_match s.volume.upcase name xs)
  unfolding step
  step_lem s dir xs comp name d enough converted =
      let t = referred D s dir in
      let looked =
        lookup_name_lem t dir xs comp name (IsDirectory-raise_refs dir d) enough converted in
      elim (Option-cases (first_match s.volume.upcase name xs)) [
        | inl none_there ↦
            recover_then_failed (lookup_name D e now fuel dir comp) (put_node D dir) t t s
              (looked ∙ ap (found_in D t) none_there)
              (put_back_lem D s dir d.inode d.real d.holds d.quiet)
            ∙ ap (found_in D s) (sym none_there)
        | inr (q, there) ↦
            recover_then_done (lookup_name D e now fuel dir comp) (put_node D dir) t
              (referred D t q) (referred D s q) q (looked ∙ ap (found_in D t) there)
              (put_back_two D s dir q d.inode d.real d.holds d.quiet)
            ∙ ap (found_in D s) (sym there)
      ]

  walk-step :
      (s : Fs D) (p : Ptr) (comp rest : List ℕ) (comps : List (List ℕ)) (n : ℕ) (r : Option Ptr)
      → Resolves s.heap s.volume.upcase fuel p (comp ∷ comps) r
      → ((q : Ptr)
          → Resolves s.heap s.volume.upcase fuel q comps r
          → walk D e now fuel n q rest (referred D s q) ≡ found_in D s r)
      → (step D e now fuel p comp >>= λ node. walk D e now fuel n node rest) (referred D s p)
        ≡ found_in D s r
  walk-step s p comp rest comps n r (missing {xs} {name} d enough converted none_there) further =
      bind_failed (step D e now fuel p comp) (λ node. walk D e now fuel n node rest)
        (referred D s p) s enoent
        (step_lem s p xs comp name d enough converted ∙ ap (found_in D s) none_there)
  walk-step s p comp rest comps n r (enters {q} {xs} {name} d enough converted there on) further =
      bind_done (step D e now fuel p comp) (λ node. walk D e now fuel n node rest) (referred D s p)
        (referred D s q) q (step_lem s p xs comp name d enough converted ∙ ap (found_in D s) there)
      ∙ further q on

  walk_lem :
      (s : Fs D) (n : ℕ) (p : Ptr) (path : List ℕ) (r : Option Ptr)
      → length path < n
      → Resolves s.heap s.volume.upcase fuel p (components path) r
      → walk D e now fuel n p path (referred D s p) ≡ found_in D s r
  unfolding walk pure
  walk_lem s zero p path r h res = absurd (omega arith)
  walk_lem s (suc n) p path r h res =
      let comp = (get_comp path).0 in
      let rest = (get_comp path).1 in
      elim (Bool-cases (length comp == 0)) [
        | inl none_left ↦
            let end = arrived_lem (
              subst (λ cs. Resolves s.heap s.volume.upcase fuel p cs r)
                (components_none path none_left) res) in
            rw (walk, none_left) (ap (found_in D s) (sym end))
        | inr some_left ↦
            let shorter = length-get_comp path some_left in
            let parts = components-get_comp path some_left in
            elim (Bool-cases (is_dot comp)) [
              | inl a_dot ↦
                  rw (walk, some_left, a_dot)
                    (walk_lem s n p rest r (omega (arith, shorter, h)) (
                      subst (λ cs. Resolves s.heap s.volume.upcase fuel p cs r)
                        (parts ∙ rw a_dot refl) res))
              | inr a_name ↦
                  rw (walk, some_left, a_name)
                    (walk-step s p comp rest (components rest) n r
                      (subst (λ cs. Resolves s.heap s.volume.upcase fuel p cs r)
                        (parts ∙ rw a_name refl) res)
                      λ q on. walk_lem s n q rest r (omega (arith, shorter, h)) on)
            ]
      ]

  -- When the root exists, the directories on the path are in memory, with fewer nodes than the
  -- fuel, their dirty nodes and those in them have names that can be shown, and the components
  -- convert to names, `exfat_lookup` gives the node to which the
  -- components between the slashes lead, each by the first node of that name, and ENOENT when one
  -- of them leads nowhere. The volume stays as it was, references included, but for one reference
  -- to the result.
  pub lookup-Resolves :
      (s : Fs D) (path : List ℕ) (i : Inode) (r : Option Ptr)
      → s.root ≢ null
      → s.heap s.root ≡ some i
      → Resolves s.heap s.volume.upcase fuel s.root (components path) r
      → lookup D e now fuel path s ≡ found_in D s r
  unfolding lookup gets ◌>>=◌
  lookup-Resolves s path i r real holds res =
      then_done (get_node D s.root) (walk D e now fuel (suc (length path)) s.root path) s
        (referred D s s.root) tt (get_node_done D s.root s i real holds)
      ∙ walk_lem s (suc (length path)) s.root path r (omega arith) res
