-- ===== src/Directories.antt =====
-- readdir, lookup and access of src/fuse_methods, with the attributes that src/nativefs/listing.c
-- and direntry.c give of a direntry.
pub mod Listed
pub mod Lookup
pub mod Readdir
mod Tests
use Prim.Native.Nat.{bit_and, bit_or, bit_xor}
use fsfuse.Base.{
  ℕ, zero, suc, ◌+◌, ◌-◌, ◌/◌, ◌%◌, ◌^◌, Bool, true, false, Option, none, some, List, [], ◌∷◌, ◌++◌,
  ltb, leb, ◌==◌, if◌then◌else◌, min, take, drop, Run, fault, out_of_fuel, ok, ◌>>=◌, ◌>>◌,
  or_fault, check,
}
use fsfuse.Base.Bytes.{Str, chars}
use fsfuse.Base.Heap.{Heap}
use fsfuse.Base.Errno.{enoent, eacces}
use fsfuse.Listing.{Listing, ListingType, file, directory}
use fsfuse.FuseMethods.{direntry_get_by_inode, Fs, direntry_delete}
use fsfuse.Direntries.{
  Links, Tree, Indexnode, linked, deleted, direntry_get_parent, direntry_get_first_child,
  step_sibling, direntry_ensure_children, direntry_get_child_by_name, direntry_get_name,
}

-- What the configuration and the process give: no user or group is the -1 of the configuration.
pub record Config : Type 0 where
  pub id_uid : Option ℕ
  pub id_gid : Option ℕ
  pub mode_file : ℕ
  pub mode_dir : ℕ
  pub getuid : ℕ
  pub getgid : ℕ

-- The members of struct stat that are set; all others are 0.
pub record Stat : Type 0 where
  pub st_ino : ℕ
  pub st_nlink : ℕ
  pub st_uid : ℕ
  pub st_gid : ℕ
  pub st_mode : ℕ
  pub st_size : ℕ
  pub st_blksize : ℕ
  pub st_blocks : ℕ

abbrev pub s_ifreg : ℕ
s_ifreg = 2 ^ 15

abbrev pub s_ifdir : ℕ
s_ifdir = 2 ^ 14

abbrev pub fsfuse_blksize : ℕ
fsfuse_blksize = 512

configured : Option ℕ → ℕ → ℕ
configured none own = own
configured (some id) own = id

type_stat : Config → ListingType → ℕ → Stat → Stat
type_stat config file size st = record st {
  st_mode = bit_or s_ifreg config.mode_file;
  st_size = size;
  st_blksize = fsfuse_blksize;
  st_blocks = size / 512 + 1;
}
type_stat config directory size st = record st {
  st_mode = bit_or s_ifdir config.mode_dir;
  st_size = 0;
}

pub listing_li2stat : Config → Listing → Stat
unfolding configured type_stat
listing_li2stat config li = type_stat config li.type li.size (record {
  st_ino = 0;
  st_nlink = li.link_count;
  st_uid = configured config.id_uid config.getuid;
  st_gid = configured config.id_gid config.getgid;
  st_mode = 0;
  st_size = 0;
  st_blksize = 0;
  st_blocks = 0;
})

pub direntry_de2stat : Config → ℕ → Tree → Run Stat
unfolding listing_li2stat
direntry_de2stat config de t = do
  l ← linked de t
  li ← or_fault (t.fs.store de)
  ok (record (listing_li2stat config li) { st_ino = l.inode })

-- fuse_add_direntry of libfuse: the room that a name needs, and the bytes of an entry with the
-- offset of the next.
pub record Libfuse : Type 0 where
  pub entry_size : Str → ℕ
  pub entry : Str → Stat → ℕ → List ℕ

pub record Dirbuf : Type 0 where
  pub buf : List ℕ
  pub size : ℕ

pub entry_name : Option Str → ℕ → Tree → Run Str
entry_name none de t = direntry_get_name de t
entry_name (some name) de t = ok name

pub dirbuf_add : Libfuse → Config → Dirbuf → ℕ → Option Str → Tree → Run Dirbuf
unfolding entry_name direntry_de2stat
dirbuf_add fuse config b de name t = do
  name' ← entry_name name de t
  let size = b.size + fuse.entry_size name'
  stats ← direntry_de2stat config de t
  ok (record { buf = b.buf ++ fuse.entry name' stats size; size = size })

pub add_dot_dot : Libfuse → Config → Dirbuf → ℕ → Option ℕ → Tree → Run (Dirbuf × Tree)
unfolding dirbuf_add
add_dot_dot fuse config b de none t = do
  b' ← dirbuf_add fuse config b de (some (chars "..")) t
  ok (b', t)
add_dot_dot fuse config b de (some parent) t = do
  b' ← dirbuf_add fuse config b parent (some (chars "..")) t
  t' ← deleted parent t
  ok (b', t')

pub add_children : Libfuse → Config → ℕ → Dirbuf → Option ℕ → Tree → Run (Dirbuf × Tree)
unfolding dirbuf_add
add_children fuse config k b none t = ok (b, t)
add_children fuse config zero b (some child) t = out_of_fuel
add_children fuse config (suc k) b (some child) t = do
  b' ← dirbuf_add fuse config b child none t
  (next, t1) ← step_sibling child t
  add_children fuse config k b' next t1

-- The part of the buffer that is asked for. The offset is cut to an unsigned int for the test.
pub reply_part : Dirbuf → ℕ → ℕ → Run (List ℕ)
reply_part b size off =
    if ltb (off % 2 ^ 32) b.size
    then check (leb off b.size) >> ok (take (min (b.size - off) size) (drop off b.buf))
    else ok []

-- The reply's bytes.
pub fsfuse_readdir :
    Libfuse → Config → ℕ → Indexnode → ℕ → ℕ → ℕ → Heap → Tree → Run (List ℕ × Heap × Tree)
unfolding dirbuf_add add_dot_dot add_children reply_part
fsfuse_readdir fuse config fuel indexnode de size off h t = do
  b1 ← dirbuf_add fuse config (record { buf = []; size = 0 }) de (some (chars ".")) t
  (parent, t1) ← direntry_get_parent de t
  (b2, t2) ← add_dot_dot fuse config b1 de parent t1
  (rc, h3, t3) ← direntry_ensure_children fuel indexnode de h t2
  (first, t4) ← direntry_get_first_child de t3
  (b5, t5) ← add_children fuse config fuel b2 first t4
  part ← reply_part b5 size off
  ok (part, h3, t5)

-- struct fuse_entry_param; its timeouts are seconds.
pub record FuseEntry : Type 0 where
  pub ino : ℕ
  pub generation : ℕ
  pub attr : Stat
  pub attr_timeout : ℕ
  pub entry_timeout : ℕ

pub direntry_de2fuse_entry : Config → ℕ → Tree → Run FuseEntry
unfolding direntry_de2stat
direntry_de2fuse_entry config de t = do
  l ← linked de t
  st ← direntry_de2stat config de t
  ok (record { ino = l.inode; generation = 0; attr = st; attr_timeout = 0; entry_timeout = 0 })

pub data Answer : Type 0 where
  reply_entry : FuseEntry → Answer
  reply_err : ℕ → Answer

pub lookup_answer : Config → Option ℕ → Tree → Run Answer
unfolding direntry_de2fuse_entry
lookup_answer config none t = ok (reply_err enoent)
lookup_answer config (some de) t = do
  entry ← direntry_de2fuse_entry config de t
  ok (reply_entry (record entry { attr_timeout = 1; entry_timeout = 1 }))

pub fsfuse_lookup : Config → ℕ → Indexnode → ℕ → Str → Heap → Tree → Run (Answer × Heap × Tree)
unfolding lookup_answer
fsfuse_lookup config fuel indexnode parent name h t = do
  (found, h1, t1) ← direntry_get_child_by_name fuel indexnode parent name h t
  answer ← lookup_answer config found t1
  ok (answer, h1, t1)

-- mask & ~mode
and_not : ℕ → ℕ → ℕ
and_not mask mode = bit_xor mask (bit_and mask mode)

mode_of : Config → ListingType → ℕ
mode_of config directory = config.mode_dir
mode_of config file = config.mode_file

access_found : Config → ℕ → Option ℕ → Fs → Run (ℕ × Fs)
unfolding and_not mode_of
access_found config mask none fs = ok (enoent, fs)
access_found config mask (some de) fs = do
  li ← or_fault (fs.store de)
  fs' ← direntry_delete de fs
  ok ((if and_not mask (mode_of config li.type) == 0 then 0 else eacces), fs')

-- The code of the reply.
pub fsfuse_access : Config → ℕ → ℕ → Fs → Run (ℕ × Fs)
unfolding access_found
fsfuse_access config ino mask fs = do
  (found, fs1) ← direntry_get_by_inode ino fs
  access_found config mask found fs1
