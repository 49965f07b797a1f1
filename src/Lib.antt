-- ===== src/Lib.antt =====
-- The exFAT file system: libexfat, mkfs, and the partition scan, device window and names of the
-- AmigaOS handler.
--
-- The program is a library, libexfat, over a block device. A mounted volume (struct exfat) has the
-- super block, a bitmap of the clusters in use, the upper case table, and a tree of nodes, which are
-- files and directories read from directory entries. The FAT holds the chains of clusters of the
-- files that are not contiguous. mkfs lays out a new volume; the AmigaOS handler finds
-- volumes on a device by its partition tables and serves them as libexfat reads them.
--
-- Which file models which part:
--   Bitmap      the clusters bitmap of libexfat/cluster.c and the macros of libexfat/exfat.h. A bitmap
--               is a list of words, of 64 bits on a little-endian host and of 8 on a big-endian one;
--               Endian chooses. find_bit_and_set, allocate_cluster, free_cluster and
--               exfat_count_free_clusters have the names of the source, without exfat_.
--   Utf         libexfat/utf.c. Input is a list of bytes or units, output the list that is written;
--               a buffer is the room that is left.
--   Timestamp   libexfat/time.c. exfat_timezone is an integer, and time_t one that the reader wraps around
--               to the bits of its platform, an argument: 63 and a sign, or 31 and a sign on AmigaOS.
--   Checksum    the checksums and the name hash of libexfat/utils.c, and the loop over the boot sectors
--               of libexfat/mount.c.
--   Dirent      directory entries of libexfat/node.c with the layouts of libexfat/exfatfs.h. An entry
--               is a list of 32 bytes, whose fields are read and put at their offsets; a node is the
--               record struct exfat_node without its links. The warnings of check_node convert the name
--               (exfat_get_name of libexfat/utils.c), which stops the program for a name that UTF-8
--               cannot write; so do those of exfat_put_node and reset_cache in Tree.
--   Chain       cluster offsets, chains, growing, shrinking, erasing and truncating of
--               libexfat/cluster.c. The device is an interface, Device, of the calls exfat_pread and
--               exfat_pwrite, which lead to the platform.
--   Tree        the tree of nodes of libexfat/node.c. Fs is struct exfat with a heap of nodes: parent,
--               child, next and prev are addresses, 0 is NULL, and an access through NULL or to a node
--               that was freed is the outcome bug. malloc gives the next address that is unused.
--               Entries reads, writes, erases and flushes entries (with exfat_flush and flush_nodes of
--               libexfat/cluster.c), Special is the entries of the root directory that are not files
--               (with the repair of unknown ones of libexfat/repair.c), Readdir caches and drops
--               directories, Slots finds room and shrinks, Changes deletes, creates and renames entries
--               and sets the label, Paths has the calls that take a path: exfat_mknod, exfat_mkdir and
--               exfat_rename. Static functions have the names of the source, others lose exfat_;
--               a function whose name is taken has one of its own (exfat_flush_nodes is flush_all).
--   Lookup      libexfat/lookup.c: the comparison of names and the characters allowed in them; in
--               Lookup.Walk iterators, the components of a path, exfat_lookup and exfat_split. A path is
--               the list of its bytes.
--   Partition   amiga/parttable.c, over the same device. A read behind the end of a device is short and no
--               error, so a buffer keeps what it held; the scan shares one for all its probes.
--   Mkfs        the layout of mkfs/mkexfat.c, the sizes and contents of its objects in mkfs/vbr.c,
--               fat.c, cbm.c, uct.c and rootdir.c, and the parameters of mkfs/main.c.
--   Io          exfat_generic_pread and exfat_generic_pwrite of libexfat/io.c. Their state is a volume
--               with the node of the file; their outcome is a result, an error code, or bug, which is
--               a call of exfat_bug.
--   Options     exfat_match_option of libexfat/utils.c and the options that libexfat/mount.c reads.
--   Mount       the checks of libexfat/mount.c from the boot sector to the size of the root directory,
--               and what mounting and unmounting write; the repair of the boot checksum of
--               libexfat/repair.c.
--   Handler     the names of amiga/handler.c for its packets.
--   Small       the division of 64-bit numbers of amiga/small.c.
--   Window      the reads of amiga/dev_io.c, which implement exfat_pread for a partition of a device of
--               AmigaOS: partition_io, aligned_io, fetch_block and raw_io, for reads. Blocks and the
--               buffer of one block are a state over the medium, which is again a Device.
--   Prelude     shared names, lists, bits and integers over the native numbers; Prelude.Effect has the
--               operations on a state that end in a result, an error code, or a stop of the program.
-- The modules below a part hold its proofs, named for what they prove, and Examples its tests.
--
-- The entries of Dirent are checked and parsed over the names of Utf, the stamps of Timestamp and the
-- sums of Checksum; Chain takes and frees clusters through Bitmap, in Chain.Resize; Io reads and writes
-- through Chain, which a write also grows; Tree reads and writes directories through Io, truncates
-- through Chain, and parses and creates entry sets through Dirent; Lookup walks over the directories of
-- Tree, whose calls on paths use it in turn; Mount uses the checksums, the test for a boot sector of
-- Partition and Chain, and counts through Bitmap; Handler converts through Utf; Mkfs uses the macros
-- of Bitmap.
--
-- Numbers are natural; where the source wraps around, the remainder is written out. size_t has 64
-- bits, so that the product of a cluster number and the size of a FAT entry does not wrap around; in
-- Window, which is for AmigaOS only, it has 32.
-- The two loops of Utf run on fuel, which is the length of the input: each round reads one unit or
-- byte at least. The loops of Io over clusters run on fuel, which is the number of bytes asked
-- for: each round moves one byte at least. aligned_io runs on fuel too, one more than the bytes of
-- the transfer. In Tree and Lookup the walks over nodes and entries share one fuel, which is
-- enough when it is greater than the number of nodes, and of entries, of each directory visited;
-- for the recursions over the whole tree two more than twice the number of its nodes is enough.
-- Without fuel the outcome is bug. The walk along a path has the length of the path. The search
-- for a shift in Small has 64 rounds, one for each bit. All other loops are bounded by a count in
-- the source and recur on it.
--
-- Not modelled: messages and memory allocation failures; opening the device, mounting a volume as a whole
-- (the checks of Mount and the reading of the root directory in Tree are its parts) and the release of
-- memory in mount.c; the search for used sectors of cluster.c; the calls of the platform's device in
-- io.c; the prompt of repair.c; the FUSE daemon and the tools, which are glue; the writes of mkfs to the
-- device; writes of dev_io.c and the rest of the AmigaOS handler, as it consists of calls of the system.
pub mod Prelude
pub mod Bitmap
pub mod Utf
pub mod Timestamp
pub mod Checksum
pub mod Dirent
pub mod Chain
pub mod Io
pub mod Partition
pub mod Mkfs
pub mod Lookup
pub mod Options
pub mod Mount
pub mod Handler
pub mod Small
pub mod Window
pub mod Tree
