-- ===== src/Bt/Host/Store/RoundTrip.antt =====
-- What is saved of the paired pads in core/src/bt/host.c is what is loaded.
use ghostcontrol_ps5_usb_con.Base.{
  ◌≡◌, refl, sym, ap, ap₂, ◌∙◌, ℕ, zero, suc, ◌+◌, ◌≤◌, ◌<◌, arith, Bool, true, false, not, List,
  [], ◌∷◌, ◌++◌, length, get_or, take, drop, replicate, map, flatten, All, none, some, ltb, ◌||◌,
  ◌&&◌, length-append, take-length, drop-length, drop-drop, if_false, if◌then◌else◌,
}
use ghostcontrol_ps5_usb_con.Bt.Host.Store.{
  DbRec, from_irk, from_type, to_bytes, of_bytes, contents, db_rec_size, db_magic, db_max,
  load_loop, db_load, db_save, Disk, Outcome, same_addr,
}

-- A record whose arrays have the lengths, and whose numbers the widths, of the source.
pub record IsRec (d : DbRec) : Type 0 where
  pub addr : length d.addr ≡ 6
  pub key : length d.key ≡ 16
  pub rand : length d.rand ≡ 8
  pub irk : length d.irk ≡ 16
  pub vid : d.vid < 0x10000
  pub pid : d.pid < 0x10000
  pub ediv : d.ediv < 0x10000

get_or-drop : (n i : ℕ) (xs : List ℕ) → get_or (drop n xs) i 0 ≡ get_or xs (n + i) 0
get_or-drop zero i xs = let e : i ≡ 0 + i = omega arith in ap (λ k. get_or xs k 0) e
get_or-drop (suc n) i [] = refl
get_or-drop (suc n) i (x ∷ xs) =
    let e : suc (n + i) ≡ suc n + i = omega arith in
    get_or-drop n i xs ∙ ap (λ k. get_or (x ∷ xs) k 0) e

module _ (d : DbRec) (v : IsRec d) where
  at_6 : drop 6 (to_bytes d) ≡ d.key ++ from_type d
  unfolding to_bytes
  at_6 = drop-length d.addr (d.key ++ from_type d) 6 v.addr

  at_22 : drop 22 (to_bytes d) ≡ from_type d
  at_22 =
      sym (drop-drop 6 16 (to_bytes d))
      ∙ ap (drop 16) at_6
      ∙ drop-length d.key (from_type d) 16 v.key

  at_31 : drop 31 (to_bytes d) ≡ d.rand ++ from_irk d
  at_31 = sym (drop-drop 22 9 (to_bytes d)) ∙ ap (drop 9) at_22

  at_39 : drop 39 (to_bytes d) ≡ from_irk d
  at_39 =
      sym (drop-drop 31 8 (to_bytes d))
      ∙ ap (drop 8) at_31
      ∙ drop-length d.rand (from_irk d) 8 v.rand

  at_55 : drop 55 (to_bytes d) ≡ d.has_irk ∷ replicate 8 0
  at_55 =
      sym (drop-drop 39 16 (to_bytes d))
      ∙ ap (drop 16) at_39
      ∙ drop-length d.irk (d.has_irk ∷ replicate 8 0) 16 v.irk

  byte : (i : ℕ) → get_or (to_bytes d) (22 + i) 0 ≡ get_or (from_type d) i 0
  byte i = sym (get_or-drop 22 i (to_bytes d)) ∙ ap (λ b. get_or b i 0) at_22

  addr_read : take 6 (to_bytes d) ≡ d.addr
  unfolding to_bytes
  addr_read = take-length d.addr (d.key ++ from_type d) 6 v.addr

  key_read : take 16 (drop 6 (to_bytes d)) ≡ d.key
  key_read = ap (take 16) at_6 ∙ take-length d.key (from_type d) 16 v.key

  rand_read : take 8 (drop 31 (to_bytes d)) ≡ d.rand
  rand_read = ap (take 8) at_31 ∙ take-length d.rand (from_irk d) 8 v.rand

  irk_read : take 16 (drop 39 (to_bytes d)) ≡ d.irk
  irk_read = ap (take 16) at_39 ∙ take-length d.irk (d.has_irk ∷ replicate 8 0) 16 v.irk

  last_read : get_or (to_bytes d) 55 0 ≡ d.has_irk
  last_read = sym (get_or-drop 55 0 (to_bytes d)) ∙ ap (λ b. get_or b 0 0) at_55

  length-to_bytes : length (to_bytes d) ≡ db_rec_size
  unfolding to_bytes
  length-to_bytes = omega (
    arith,
    v.addr,
    v.key,
    v.rand,
    v.irk,
    length-append d.addr (d.key ++ from_type d),
    length-append d.key (from_type d),
    length-append d.rand (from_irk d),
    length-append d.irk (d.has_irk ∷ replicate 8 0),
  )

  of_bytes-to_bytes : of_bytes (to_bytes d) ≡ d
  unfolding of_bytes
  of_bytes-to_bytes = ground (
    arith,
    addr_read,
    key_read,
    rand_read,
    irk_read,
    last_read,
    byte 0,
    byte 1,
    byte 2,
    byte 3,
    byte 4,
    byte 5,
    byte 6,
    byte 7,
    byte 8,
    v.vid,
    v.pid,
    v.ediv,
  )

load_loop-first :
    (n : ℕ) (d : DbRec) (rest : List ℕ)
    → IsRec d
    → load_loop (suc n) (to_bytes d ++ rest) ≡ d ∷ load_loop n rest
unfolding load_loop
load_loop-first n d rest v =
    let size = length-to_bytes d v in
    let long : ltb (length (to_bytes d ++ rest)) db_rec_size ≡ false =
      ground (arith, length-append (to_bytes d) rest, size) in
    let here : of_bytes (take db_rec_size (to_bytes d ++ rest)) ≡ d =
      ap of_bytes (take-length (to_bytes d) rest db_rec_size size) ∙ of_bytes-to_bytes d v in
    let there = ap (load_loop n) (drop-length (to_bytes d) rest db_rec_size size) in
    if_false _ _ long ∙ ap₂ (λ (x : DbRec) (xs : List DbRec). x ∷ xs) here there

load_loop-contents :
    (n : ℕ) (db : List DbRec)
    → All IsRec db
    → length db ≤ n
    → load_loop n (flatten (map to_bytes db)) ≡ db
unfolding load_loop
load_loop-contents zero [] v h = refl
load_loop-contents (suc n) [] v h = refl
load_loop-contents zero (d ∷ db) v h = absurd (omega arith)
load_loop-contents (suc n) (d ∷ db) v h =
    load_loop-first n d (flatten (map to_bytes db)) v.0
    ∙ ap (λ (l : List DbRec). d ∷ l) (load_loop-contents n db v.1 (omega arith))

contents-loaded :
    (db : List DbRec)
    → All IsRec db
    → length db ≤ db_max
    → db_load (record { store = some (contents db); beside = none }) ≡ db
unfolding db_load contents
contents-loaded db v h =
    let whole : (ltb (length (db_magic ++ flatten (map to_bytes db))) 8
          || not (same_addr (take 8 (db_magic ++ flatten (map to_bytes db))) db_magic))
        ≡ false =
      ground arith in
    if_false _ _ whole ∙ load_loop-contents db_max db v h

saved_or_kept :
    (opened written renamed : Bool) (db : List DbRec) (disk : Disk)
    → db_load (record { store = some (contents db); beside = none }) ≡ db
    → db_load (db_save (record { opened = opened; written = written; renamed = renamed }) db disk)
      ≡ (if opened && written && renamed then db else db_load disk)
unfolding db_save db_load
saved_or_kept false written renamed db disk e = refl
saved_or_kept true false renamed db disk e = refl
saved_or_kept true true false db disk e = refl
saved_or_kept true true true db disk e = e

-- The file that a save leaves is loaded to the same pads, each with all its keys, if the file could
-- be opened, written and renamed; after a save that failed in any of these, what was stored before
-- is loaded.
pub db_load-db_save :
    (o : Outcome) (db : List DbRec) (disk : Disk)
    → All IsRec db
    → length db ≤ db_max
    → db_load (db_save o db disk)
      ≡ (if o.opened && o.written && o.renamed then db else db_load disk)
db_load-db_save o db disk v h =
    saved_or_kept o.opened o.written o.renamed db disk (contents-loaded db v h)
