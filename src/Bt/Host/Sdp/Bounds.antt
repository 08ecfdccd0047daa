-- ===== src/Bt/Host/Sdp/Bounds.antt =====
-- The SDP client of core/src/bt/host.c stays within what it was sent and within its buffers.
use ghostcontrol_ps5_usb_con.Base.{
  ◌≡◌, refl, ℕ, zero, suc, ◌+◌, ◌/◌, ◌%◌, ◌^◌, ◌≤◌, arith, Bool, true, false, not, List, [], ◌∷◌,
  ◌++◌, length, get_or, take, drop, Option, none, some, leb, ltb, ◌&&◌, ◌||◌, ◌==◌, ◌!=◌, if-elim,
  OnSome, OnSome-value, leb→le, length-drop, length-append, length-take_le,
}
use ghostcontrol_ps5_usb_con.Bt.Host.Sdp.{
  Element, Ids, fitting, be32, on_element, find_loop, de_header, is_sequence, advance,
  descriptor_loop, sdp_find_descriptor, Sdp, Query, q_none, q_ids, q_desc, query_body, is_asked,
  Step, ignored, asked, finished, sdp_send_request, finish, take_part, on_sdp, sdp_buf_max,
  sdp_cont_max, be16,
}

-- An element that is read has its header and its content within the bytes.
abbrev Fits : List ℕ → Element → Type 0
Fits p e = (1 ≤ e.header) × (e.header + e.clen ≤ length p)

fitting-Fits :
    (p : List ℕ) (type clen header : ℕ)
    → 1 ≤ header
    → OnSome (Fits p) (fitting type clen header (length p))
fitting-Fits p type clen header h =
    if-elim (OnSome (Fits p)) (leb (header + clen) (length p)) _ _ (λ e. (h, leb→le _ _ e))
      (λ _. tt)

de_header-Fits : (p : List ℕ) → OnSome (Fits p) (de_header p)
unfolding de_header
de_header-Fits [] = tt
de_header-Fits (b ∷ p) =
    let fits = OnSome (Fits (b ∷ p)) in
    let fit = fitting-Fits (b ∷ p) (b / 8) in
    if-elim fits (b / 8 == 0) _ _ (λ _. omega arith)
      λ _.
        if-elim fits (ltb (b % 8) 5) _ _ (λ _. fit (2 ^ (b % 8)) 1 (omega arith))
          λ _.
            if-elim fits (b % 8 == 5) _ _
              (λ _.
                if-elim fits (ltb (suc (length p)) 2) _ _ (λ _. tt)
                  (λ _. fit (get_or p 0 0) 2 (omega arith)))
              λ _.
                if-elim fits (b % 8 == 6) _ _
                  (λ _.
                    if-elim fits (ltb (suc (length p)) 3) _ _ (λ _. tt)
                      (λ _. fit (be16 p 0) 3 (omega arith)))
                  λ _.
                    if-elim fits (ltb (suc (length p)) 5) _ _ (λ _. tt)
                      (λ _. fit (be32 p 0) 5 (omega arith))

-- What holds of both cases of an option, under its value.
on_option {κ} :
    {A B : Type 0} (P : B → Type κ) (Q : A → Type 0) (o : Option A) (x : B) (f : A → B)
    → OnSome Q o
    → P x
    → ((a : A) → Q a → P (f a))
    → P (elim o [ none ↦ x | some a ↦ f a ])
on_option P Q none x f q h k = h
on_option P Q (some a) x f q h k = k a q

abbrev Within : ℕ → Option (ℕ × ℕ) → Type 0
Within n r = OnSome (λ (found : ℕ × ℕ). found.0 + found.1 ≤ n) r

descriptor_loop-Within :
    (fuel i : ℕ) (p : List ℕ) (after : Bool) (n : ℕ)
    → i + length p ≤ n
    → Within n (descriptor_loop fuel i p after)
unfolding descriptor_loop
descriptor_loop-Within zero i p after n h = tt
descriptor_loop-Within (suc fuel) i [] after n h = tt
descriptor_loop-Within (suc fuel) i (b ∷ p) after n h =
    on_option (Within n) (Fits (b ∷ p)) (de_header (b ∷ p)) none _ (de_header-Fits (b ∷ p)) tt
      λ e fits.
        if-elim (Within n) (not (is_sequence e) && e.type == 4 && after) _ _
          (λ _. omega (arith, fits.1))
          λ _.
            descriptor_loop-Within fuel (i + advance e) (drop (advance e) (b ∷ p)) _ n
              (ground (arith, length-drop (advance e) (b ∷ p), fits.1, h))

-- A descriptor that is found stands within the answer.
pub sdp_find_descriptor-within :
    (p : List ℕ) (i n : ℕ) → sdp_find_descriptor p ≡ some (i, n) → i + n ≤ length p
unfolding sdp_find_descriptor
sdp_find_descriptor-within p i n h =
    OnSome-value (λ (found : ℕ × ℕ). found.0 + found.1 ≤ length p) (sdp_find_descriptor p) (i, n)
      (descriptor_loop-Within (length p) 0 p false (length p) (omega arith)) h

-- Two ways to go on that agree on what can be found.
option_agrees :
    {A B : Type 0} (Q : A → Type 0) (o : Option A) (x : B) (f g : A → B)
    → OnSome Q o
    → ((a : A) → Q a → f a ≡ g a)
    → ◌≡◌ {A = B} (elim o [ none ↦ x | some a ↦ f a ]) (elim o [ none ↦ x | some a ↦ g a ])
option_agrees Q none x f g q k = refl
option_agrees Q (some a) x f g q k = k a q

advance_shortens :
    (b : ℕ) (p : List ℕ) (e : Element) (n : ℕ)
    → Fits (b ∷ p) e
    → length (b ∷ p) ≤ suc n
    → length (drop (advance e) (b ∷ p)) ≤ n
advance_shortens b p e n fits h = ground (arith, length-drop (advance e) (b ∷ p), fits.0, h)

-- More rounds than bytes change nothing, so no element is left unread for lack of them.
pub find_loop_fuel :
    (n m : ℕ) (p : List ℕ) (ids : Ids)
    → length p ≤ n
    → length p ≤ m
    → find_loop n p ids ≡ find_loop m p ids
unfolding find_loop
find_loop_fuel zero zero p ids h k = refl
find_loop_fuel zero (suc m) [] ids h k = refl
find_loop_fuel zero (suc m) (b ∷ p) ids h k = absurd (omega arith)
find_loop_fuel (suc n) zero [] ids h k = refl
find_loop_fuel (suc n) zero (b ∷ p) ids h k = absurd (omega arith)
find_loop_fuel (suc n) (suc m) [] ids h k = refl
find_loop_fuel (suc n) (suc m) (b ∷ p) ids h k =
    option_agrees (Fits (b ∷ p)) (de_header (b ∷ p)) (ids, false) _ _ (de_header-Fits (b ∷ p))
      λ e fits.
        find_loop_fuel n m (drop (advance e) (b ∷ p)) (on_element e (b ∷ p) ids)
          (advance_shortens b p e n fits h) (advance_shortens b p e m fits k)

-- The buffer and the continuation of a query fit where the source keeps them.
pub record InBuffers (s : Sdp) : Type 0 where
  pub gathered : length s.buf ≤ sdp_buf_max
  pub continued : length s.cont ≤ sdp_cont_max

-- The 64 bytes in which a request is put together.
abbrev pub req_max : ℕ
req_max = 64

abbrev pub StepFits : Step → Type 0
StepFits ignored = Unit
StepFits (asked request) = length request ≤ req_max
StepFits (finished query ok) = Unit

abbrev pub Keeps : Sdp × Step → Type 0
Keeps r = InBuffers r.0 × StepFits r.1

query_body_short : (q : Query) → length (query_body q) ≤ 14
query_body_short q_none = omega arith
query_body_short q_ids = omega arith
query_body_short q_desc = omega arith

sdp_send_request-Keeps :
    (now : ℕ) (kept : Bool) (s : Sdp)
    → InBuffers s
    → InBuffers (sdp_send_request now kept s).0 × (length (sdp_send_request now kept s).1 ≤ req_max)
unfolding sdp_send_request
sdp_send_request-Keeps now kept s v = (
  ground (arith, v.gathered, v.continued),
  omega (
    arith,
    v.continued,
    query_body_short s.query,
    length-append (query_body s.query) (length s.cont ∷ s.cont),
  ),
)

finish-Keeps : (ok : Bool) (s : Sdp) → InBuffers s → Keeps (finish ok s)
unfolding finish
finish-Keeps ok s v = (record { gathered = v.gathered; continued = v.continued }, tt)

take_part-Keeps :
    (now : ℕ) (kept : Bool) (bytes : ℕ) (d : List ℕ) (s : Sdp)
    → InBuffers s
    → length s.buf + bytes ≤ sdp_buf_max
    → Keeps (take_part now kept bytes d s)
unfolding take_part
take_part-Keeps now kept bytes d s v room =
    let cl = get_or d (7 + bytes) 0 in
    let part = take bytes (drop 7 d) in
    let s' : Sdp = record s { buf = s.buf ++ part } in
    let v' : InBuffers s' = record {
      gathered = omega (arith, length-append s.buf part, length-take_le bytes (drop 7 d));
      continued = v.continued;
    } in
    if-elim Keeps (ltb sdp_cont_max cl || ltb (length d) (8 + bytes + cl)) _ _
      (λ _. finish-Keeps false s' v')
      λ short.
        if-elim Keeps (cl == 0) _ _ (λ _. finish-Keeps true s' v')
          λ _.
            sdp_send_request-Keeps now kept
              (record s' { cont = take cl (drop (8 + bytes) d); tries = 0 })
              (record {
                gathered = v'.gathered;
                continued = ground (arith, short, length-take_le cl (drop (8 + bytes) d));
              })

-- Whatever an answer holds, what is gathered stays within its 1,024 bytes and the continuation
-- within its 16, and a request for more fits the 64 bytes that it is put together in.
pub on_sdp-Keeps :
    (now : ℕ) (kept : Bool) (d : List ℕ) (s : Sdp) → InBuffers s → Keeps (on_sdp now kept d s)
unfolding on_sdp
on_sdp-Keeps now kept d s v =
    if-elim Keeps (not (is_asked s.query) || not s.sent || ltb (length d) 5) _ _ (λ _. (v, tt))
      λ _.
        if-elim Keeps (be16 d 1 != s.tid) _ _ (λ _. (v, tt))
          λ _.
            if-elim Keeps (get_or d 0 0 != 0x07 || ltb (length d) 8) _ _
              (λ _. finish-Keeps false s v)
              λ _.
                if-elim Keeps
                  (not (ltb (length d) (8 + be16 d 5) || ltb sdp_buf_max (length s.buf + be16 d 5)))
                  _ _ (λ room. take_part-Keeps now kept (be16 d 5) d s v (ground (arith, room)))
                  (λ _. finish-Keeps false s v)
