-- ===== src/Bt/Host/Store.antt =====
-- core/src/bt/host.c, the store of the paired pads: the records, and the file that keeps them.
-- An array of bytes is the list of its bytes, with the length of the array; the store is the list
-- of its first `ndb` records, and an index stands for a pointer into it.
use ghostcontrol_ps5_usb_con.Base.{
  ℕ, zero, suc, ◌+◌, ◌-◌, ◌*◌, ◌/◌, ◌%◌, Bool, true, false, not, ◌&&◌, ◌||◌, Option, none, some,
  List, [], ◌∷◌, ◌++◌, length, get_or, take, drop, replicate, map, flatten, ltb, ◌==◌,
  if◌then◌else◌,
}
use ghostcontrol_ps5_usb_con.Bt.Host.{put16, le16}
pub mod RoundTrip
pub mod Distinct

abbrev pub db_max : ℕ
db_max = 16

abbrev pub db_rec_size : ℕ
db_rec_size = 64

-- "GHOSTT02".
abbrev pub db_magic : List ℕ
db_magic = 71 ∷ 72 ∷ 79 ∷ 83 ∷ 84 ∷ 84 ∷ 48 ∷ 50 ∷ []

pub record DbRec : Type 0 where
  pub addr : List ℕ
  pub key : List ℕ
  pub type : ℕ
  pub vid : ℕ
  pub pid : ℕ
  pub le : ℕ
  pub addr_type : ℕ
  pub ediv : ℕ
  pub rand : List ℕ
  pub irk : List ℕ
  pub has_irk : ℕ

abbrev pub same_addr : List ℕ → List ℕ → Bool
same_addr [] [] = true
same_addr (x ∷ xs) (y ∷ ys) = x == y && same_addr xs ys
same_addr _ _ = false

-- The record of the address, counted from `i`.
unfoldable pub find_from : ℕ → List DbRec → List ℕ → Option ℕ
find_from i [] addr = none
find_from i (r ∷ rs) addr = if same_addr r.addr addr then some i else find_from (suc i) rs addr

unfoldable pub db_find : List DbRec → List ℕ → Option ℕ
unfolding find_from
db_find db addr = find_from 0 db addr

abbrev pub empty_rec : List ℕ → DbRec
empty_rec addr = record {
  addr = addr;
  key = replicate 16 0;
  type = 0;
  vid = 0;
  pid = 0;
  le = 0;
  addr_type = 0;
  ediv = 0;
  rand = replicate 8 0;
  irk = replicate 16 0;
  has_irk = 0;
}

-- When the store is full, the oldest record is forgotten.
abbrev pub with_room : List DbRec → List DbRec
with_room db = if length db == db_max then drop 1 db else db

-- The store, and where the record of the address is.
unfoldable pub db_put : List DbRec → List ℕ → List DbRec × ℕ
unfolding db_find
db_put db addr = elim (db_find db addr) [
  | some i ↦ (db, i)
  | none ↦ (with_room db ++ empty_rec addr ∷ [], length (with_room db))
]

-- The records before the one at `i` and those behind it.
abbrev pub remove : ℕ → List DbRec → List DbRec
remove i db = take i db ++ drop (suc i) db

-- The store is saved afterwards, if a record went.
unfoldable pub db_forget : List DbRec → List ℕ → List DbRec
unfolding db_find
db_forget db addr = elim (db_find db addr) [ none ↦ db | some i ↦ remove i db ]

-- The bytes of a record from `irk` on, and from the key type on.
abbrev pub from_irk : DbRec → List ℕ
from_irk d = d.irk ++ (d.has_irk ∷ replicate 8 0)

abbrev pub from_type : DbRec → List ℕ
from_type d =
    d.type
    ∷ (put16 d.vid
        ++ (put16 d.pid ++ (d.le ∷ d.addr_type ∷ (put16 d.ediv ++ (d.rand ++ from_irk d)))))

-- One record of the file.
unfoldable pub to_bytes : DbRec → List ℕ
to_bytes d = d.addr ++ (d.key ++ from_type d)

unfoldable pub of_bytes : List ℕ → DbRec
of_bytes r = record {
  addr = take 6 r;
  key = take 16 (drop 6 r);
  type = get_or r 22 0;
  vid = le16 r 23;
  pid = le16 r 25;
  le = get_or r 27 0;
  addr_type = get_or r 28 0;
  ediv = le16 r 29;
  rand = take 8 (drop 31 r);
  irk = take 16 (drop 39 r);
  has_irk = get_or r 55 0;
}

unfoldable pub contents : List DbRec → List ℕ
unfolding to_bytes
contents db = db_magic ++ flatten (map to_bytes db)

-- The store's file and the one beside it.
pub record Disk : Type 0 where
  pub store : Option (List ℕ)
  pub beside : Option (List ℕ)

-- Whether the new file opens, is written whole, and is renamed over the store.
pub record Outcome : Type 0 where
  pub opened : Bool
  pub written : Bool
  pub renamed : Bool

unfoldable pub db_save : Outcome → List DbRec → Disk → Disk
unfolding contents
db_save o db disk =
    if not o.opened
    then disk
    else if not (o.written && o.renamed)
    then record disk { beside = none }
    else record { store = some (contents db); beside = none }

-- The loop, with room for `n` more records: a record that is cut short ends it.
unfoldable pub load_loop : ℕ → List ℕ → List DbRec
unfolding of_bytes
load_loop zero b = []
load_loop (suc n) b =
    let rest = load_loop n (drop db_rec_size b) in
    if ltb (length b) db_rec_size then [] else of_bytes (take db_rec_size b) ∷ rest

unfoldable pub db_load : Disk → List DbRec
unfolding load_loop
db_load disk = elim (disk.store) [
  | none ↦ []
  | some b ↦
      if ltb (length b) 8 || not (same_addr (take 8 b) db_magic)
      then []
      else load_loop db_max (drop 8 b)
]
