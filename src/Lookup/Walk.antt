-- ===== src/Lookup/Walk.antt =====
-- Directories and paths: libexfat/lookup.c over the tree of nodes. A path is a list of bytes without its
-- NUL. The walks over the nodes of a directory run on fuel, the walk along a path on its length.
use exfat.Prelude.{
  ℕ, zero, suc, ◌+◌, ◌-◌, Bool, true, false, not, ◌&&◌, List, [], ◌∷◌, ◌++◌, ◌==◌, if◌then◌else◌,
  get_or, length, replicate,
}
use exfat.Prelude.Int.{ℤ, pos, negsuc}
use exfat.Prelude.Effect.{
  enoent, eilseq, enametoolong, Op, ◌>>=◌, ◌>>◌, pure, raise, stop, gets, raise_if, branch, recover,
}
use exfat.Bitmap.{Endian}
use exfat.Utf.{Converted, utf8_to_utf16}
use exfat.Dirent.{name_max}
use exfat.Chain.{Device}
use exfat.Tree.{Ptr, null, Fs, load, get_node, put_node}
use exfat.Tree.Readdir.{is_enoent, cache_directory}
use exfat.Lookup.{compare_name, is_allowed}

abbrev pub slash : ℕ
slash = 0x2f

abbrev pub dot : ℕ
dot = 0x2e

-- `path + strspn(path, "/")`.
unfoldable pub skip_slashes : List ℕ → List ℕ
skip_slashes [] = []
skip_slashes (c ∷ path) = elim (c == slash) [ true ↦ skip_slashes path | false ↦ c ∷ path ]

-- The bytes before the first slash, or all, and those from there on.
unfoldable pub until_slash : List ℕ → List ℕ × List ℕ
until_slash [] = ([], [])
until_slash (c ∷ path) =
    let more = until_slash path in if c == slash then ([], c ∷ path) else (c ∷ more.0, more.1)

-- The component, and what follows it.
unfoldable pub get_comp : List ℕ → List ℕ × List ℕ
unfolding skip_slashes until_slash
get_comp path = until_slash (skip_slashes path)

abbrev pub is_dot : List ℕ → Bool
is_dot comp = length comp == 1 && get_or comp 0 0 == dot

unfoldable pub is_last_comp : List ℕ → Bool
unfolding get_comp
is_last_comp rest = length (get_comp rest).0 == 0

abbrev pub is_zero : ℤ → Bool
is_zero (pos n) = n == 0
is_zero (negsuc n) = false

-- `compare_name(…) == 0`, with the table of the volume.
abbrev pub same_name : List ℕ → List ℕ → List ℕ → Bool
same_name upcase a b = is_zero (compare_name (λ c. get_or upcase c c) a b)

-- The result of a conversion of a name of at most `EXFAT_NAME_MAX` units.
unfoldable pub name_of : {S : Type 0} → Converted → Op S (List ℕ)
unfolding pure raise stop
name_of (Converted.done units) = pure units
name_of Converted.illegal = raise eilseq
name_of Converted.too_long = raise enametoolong
name_of Converted.out_of_fuel = stop

abbrev pub convert : {S : Type 0} → List ℕ → Op S (List ℕ)
convert comp = name_of (utf8_to_utf16 comp (name_max + 1))

-- `struct exfat_iterator`.
pub record Iterator : Type 0 where
  pub parent : Ptr
  pub current : Ptr

module _ (D : Device) where
  unfoldable pub closedir : Iterator → Op (Fs D) (Unit {0})
  unfolding put_node
  closedir it = put_node D it.parent

  -- The iterator moves to a node, which is referred to then, or to NULL.
  unfoldable pub move_to : Iterator → Ptr → Op (Fs D) Iterator
  unfolding ◌>>◌ pure branch get_node
  move_to it current = do
    branch (λ s. current == null) (pure tt) (get_node D current)
    pure (record it { current = current })

  -- `exfat_readdir`.
  unfoldable pub next_entry : Iterator → Op (Fs D) Iterator
  unfolding ◌>>=◌ load move_to
  next_entry it = do
    i ← load D (if it.current == null then it.parent else it.current)
    move_to it (if it.current == null then i.child else i.next)

  module _ (e : Endian) (now : ℤ) (fuel : ℕ) where
    unfoldable pub opendir : Ptr → Op (Fs D) Iterator
    unfolding ◌>>=◌ ◌>>◌ pure raise recover get_node put_node cache_directory
    opendir dir = do
      get_node D dir
      recover (cache_directory D e now fuel dir) λ rc. put_node D dir >> raise rc
      pure (record { parent = dir; current = null })

    -- The node at the iterator is the one of the name, and stays referred to, or the search goes on.
    unfoldable pub compare_entry :
        (Iterator → Op (Fs D) Ptr) → List ℕ → Iterator → List ℕ → Op (Fs D) Ptr
    unfolding ◌>>◌ ◌>>=◌ pure gets branch put_node closedir
    compare_entry again name it entry_name = do
      upcase ← gets λ s. s.volume.upcase
      branch (λ s. same_name upcase name entry_name) (do closedir it; pure it.current)
          (do put_node D it.current; again it)

    unfoldable pub visit : (Iterator → Op (Fs D) Ptr) → List ℕ → Iterator → Op (Fs D) Ptr
    unfolding ◌>>◌ ◌>>=◌ raise branch load closedir compare_entry
    visit again name it =
        branch (λ s. it.current == null) (do closedir it; raise enoent)
          (do i ← load D it.current; compare_entry again name it i.node.name)

    -- The nodes from the iterator on.
    unfoldable pub find_name : ℕ → List ℕ → Iterator → Op (Fs D) Ptr
    unfolding ◌>>=◌ stop next_entry visit
    find_name zero name it = stop
    find_name (suc n) name it = do it' ← next_entry it; visit (find_name n name) name it'

    unfoldable pub lookup_name : Ptr → List ℕ → Op (Fs D) Ptr
    unfolding ◌>>=◌ name_of utf8_to_utf16 opendir find_name
    lookup_name parent comp = do name ← convert comp; it ← opendir parent; find_name fuel name it

    -- A step from `parent`, whose reference is given back whether the name is found or not.
    unfoldable pub step : Ptr → List ℕ → Op (Fs D) Ptr
    unfolding ◌>>=◌ ◌>>◌ pure raise recover lookup_name put_node
    step parent comp = do
      node ← recover (lookup_name parent comp) λ rc. put_node D parent >> raise rc
      put_node D parent
      pure node

    -- The loop, with the length of the path as fuel.
    unfoldable pub walk : ℕ → Ptr → List ℕ → Op (Fs D) Ptr
    unfolding ◌>>=◌ stop pure get_comp step
    walk zero parent path = stop
    walk (suc n) parent path =
        let comp = (get_comp path).0 in
        let rest = (get_comp path).1 in
        elim (length comp == 0) [
          | true ↦ pure parent
          | false ↦ elim (is_dot comp) [
            | true ↦ walk n parent rest
            | false ↦ do node ← step parent comp; walk n node rest
          ]
        ]

    unfoldable pub lookup : List ℕ → Op (Fs D) Ptr
    unfolding ◌>>=◌ ◌>>◌ gets get_node walk
    lookup path = do root ← gets λ s. s.root; get_node D root; walk (suc (length path)) root path

    -- The last component: its name, and its node if there is one. An error gives the reference back.
    unfoldable pub split_last : Ptr → List ℕ → Op (Fs D) (Ptr × Ptr × List ℕ)
    unfolding ◌>>=◌ ◌>>◌ pure raise recover branch raise_if lookup_name put_node name_of
        utf8_to_utf16 is_allowed
    split_last parent comp =
        recover
          (do
            raise_if enoent λ s. not (is_allowed comp)
            name ← convert comp
            node ←
                recover (lookup_name parent comp)
                  λ rc. branch (λ s. is_enoent rc) (pure null) (raise rc)
            pure (parent, node, name ++ replicate (name_max + 1 - length name) 0))
          λ rc. put_node D parent >> raise rc

    -- A path without a component is `exfat_bug`.
    unfoldable pub split_from : ℕ → Ptr → List ℕ → Op (Fs D) (Ptr × Ptr × List ℕ)
    unfolding ◌>>=◌ stop get_comp is_last_comp step split_last
    split_from zero parent path = stop
    split_from (suc n) parent path =
        let comp = (get_comp path).0 in
        let rest = (get_comp path).1 in
        elim (length comp == 0) [
          | true ↦ stop
          | false ↦ elim (is_dot comp) [
            | true ↦ split_from n parent rest
            | false ↦ elim (is_last_comp rest) [
              | true ↦ split_last parent comp
              | false ↦ do node ← step parent comp; split_from n node rest
            ]
          ]
        ]

    unfoldable pub split : List ℕ → Op (Fs D) (Ptr × Ptr × List ℕ)
    unfolding ◌>>=◌ ◌>>◌ gets get_node split_from
    split path = do
      root ← gets λ s. s.root
      get_node D root
      split_from (suc (length path)) root path
