-- ===== src/Datagrams/Queue.antt =====
-- The loop that sends the datagrams that wait, in SendToMsg
-- (sources/gsdm/src/eventdrive/baseprocess.cpp) and UDPCarrier::OnEvent
-- (sources/gsdm/src/eventdrive/epoll/udpcarrier.cpp), as a queue.
use gsdm.Base.{
  ℕ, zero, suc, ◌+◌, ◌-◌, ◌^◌, ◌≤◌, ◌<◌, ◌≡◌, refl, sym, ap, ◌∙◌, false, Option, none, some, List,
  [], ◌∷◌, ◌++◌, map, arith, ◌==◌, sub32, length, take, drop, length-append, append_assoc, subst,
  ltb,
}
use gsdm.Base.Returns
use gsdm.Base.Returns.{Returns, returns}
use gsdm.Buffer.{Buffer, bytes, Errno, ignore, load_bytes}
use gsdm.Buffer.Valid.{IsValid, content}
use gsdm.Buffer.Transfer.Consume.{ignore-Dropped, length-content}
use gsdm.Datagrams.{
  Datagram, Sendto, save, len_of, End, empty, failed, Sends, after_sendto, send_cached,
}
use gsdm.Datagrams.Entries.{Entry, encode, encodes, Small, drop_front, behind_front, load_front}

abbrev Ends : End → Type 0
Ends empty = ⊥
Ends (failed e) = Unit {0}

-- What the loop leaves: `rest` waits, after all before it went out in order; the loop ends with an error
-- of sendto unless nothing waits.
pub record Left (es : List Entry) (s : Sends) : Type 0 where
  pub rest : List Entry
  pub order : map (λ e. e.1) es ≡ s.wire ++ map (λ e. e.1) rest
  pub valid : IsValid s.output
  pub waits : content s.output ≡ encodes rest
  pub count : s.left ≡ length (encodes rest)
  pub end_empty : s.ended ≡ empty → rest ≡ []

stopped :
    (b : Buffer) (left : ℕ) (e : Errno) (es : List Entry)
    → IsValid b
    → content b ≡ encodes es
    → left ≡ length (encodes es)
    → Left es (record { output = b; left = left; ended = failed e; wire = [] })
stopped b left e es v w c = record {
  rest = es;
  order = refl;
  valid = v;
  waits = w;
  count = c;
  end_empty = λ h. absurd (subst Ends h tt);
}

len_of-save :
    (pad : ℕ × ℕ) (d : Datagram)
    → length d.payload + 20 < 2 ^ 16
    → len_of (save pad d) ≡ length d.payload + 20
len_of-save pad d h = omega (arith, h)

nonzero : (n : ℕ) → 20 ≤ n → (n == 0) ≡ false
nonzero n h = ground arith

enough : (n : ℕ) → ltb (n + 20) 20 ≡ false
enough n = ground arith

-- One call of sendto, where the rest of the loop is known.
continue :
    (b : Buffer) (left : ℕ) (pad : ℕ × ℕ) (d : Datagram) (es : List Entry) (rest : Option Sends)
    → IsValid b
    → content b ≡ encodes ((pad, d) ∷ es)
    → left ≡ length (encodes ((pad, d) ∷ es))
    → Returns (Left es) rest
    → (answer : Option Errno) → Returns (Left ((pad, d) ∷ es)) (after_sendto b left d answer rest)
continue b left pad d es rest v w c r (some e) = returns (stopped b left e ((pad, d) ∷ es) v w c)
continue b left pad d es rest v w c r none = Returns.bind r λ s l. returns (record {
  rest = l.rest;
  order = ap (λ ds. d ∷ ds) l.order;
  valid = l.valid;
  waits = l.waits;
  count = l.count;
  end_empty = l.end_empty;
})

shorter_queue : (es : List Entry) → length es ≤ length (encodes es)
shorter_queue [] = omega arith
shorter_queue ((pad, d) ∷ es) = omega (
  arith,
  shorter_queue es,
  length-append (encode (pad, d)) (encodes es),
  length-append (save pad d) d.payload,
)

-- With more rounds than datagrams wait the loop ends without a fault.
pub send_cached-Left :
    (kernel : Sendto) (fuel : ℕ) (es : List Entry) (mem : List ℕ) (at left : ℕ) (b : Buffer)
    → Small es
    → IsValid b
    → content b ≡ encodes es
    → left ≡ length (encodes es)
    → left < 2 ^ 32
    → take left (drop at mem) ≡ encodes es
    → at + left ≤ length mem
    → length es < fuel
    → Returns (Left es) (send_cached kernel fuel mem at left b)
unfolding send_cached
send_cached-Left kernel zero es mem at left b small v w c lt e room h = absurd (omega (arith, h))
send_cached-Left kernel (suc fuel) [] mem at left b small v w c lt e room h = rw c (
    returns (record {
      rest = [];
      order = refl;
      valid = v;
      waits = w;
      count = refl;
      end_empty = λ k. refl;
    }))
send_cached-Left kernel (suc fuel) ((pad, d) ∷ es) mem at left b (addr, (fits, small)) v w c lt e
      room h =
    let S = save pad d in
    let P = d.payload in
    let R = encodes es in
    let size_S : length S ≡ 20 = omega (arith, addr) in
    let split = e ∙ append_assoc S P R in
    let total : left ≡ 20 + (length P + length R) = omega (
      arith,
      c,
      addr,
      ap length (append_assoc S P R),
      length-append S (P ++ R),
      length-append P R,
    ) in
    let head =
      subst (λ n. load_bytes mem at n ≡ some S) size_S
        (load_front mem at left S (P ++ R) split (omega (arith, total, size_S))
          (omega (arith, total, size_S, room))) in
    let tail =
      subst (λ n. take (left - n) (drop (at + n) mem) ≡ P ++ R) size_S
        (behind_front mem at left S (P ++ R) split (omega (arith, total, size_S))) in
    let body =
      load_front mem (at + 20) (left - 20) P R tail (omega (arith, total))
        (omega (arith, total, room)) in
    let next = behind_front mem (at + 20) (left - 20) P R tail (omega (arith, total)) in
    let shorter : length P + 20 ≤ length (content b) = omega (arith, ap length w, c, total) in
    let out = ignore-Dropped b (length P + 20) v shorter in
    let sub : sub32 left (length P + 20) ≡ left - (length P + 20) = omega (arith, total, lt) in
    let less : length P + 20 - 20 ≡ length P = omega arith in
    let whole : length (S ++ P) ≡ length P + 20 = omega (arith, length-append S P, size_S) in
    let left_after : sub32 left (length P + 20) ≡ left - 20 - length P =
      omega (arith, sub, total) in
    let at_after : at + (length P + 20) ≡ at + 20 + length P = omega arith in
    let waits_after =
      out.content_eq
      ∙ ap (drop (length P + 20)) w
      ∙ ap (λ n. drop n ((S ++ P) ++ R)) (sym whole)
      ∙ drop_front (S ++ P) R in
    let next_after =
      ap (λ n. take n (drop (at + (length P + 20)) mem)) left_after
      ∙ ap (λ k. take (left - 20 - length P) (drop k mem)) at_after
      ∙ next in
    rw (nonzero left (omega (arith, total)), head)
      (rw (len_of-save pad d fits) (
        rw (enough (length P), less, body)
          (continue b left pad d es
            (send_cached kernel fuel mem (at + (length P + 20)) (sub32 left (length P + 20))
              (ignore b (length P + 20)))
            v w c
            (send_cached-Left kernel fuel es mem (at + (length P + 20)) (sub32 left (length P + 20))
              (ignore b (length P + 20)) small out.valid waits_after (omega (arith, sub, total))
              (omega (arith, sub, lt)) next_after (omega (arith, sub, total, room))
              (omega (arith, h)))
            (kernel fuel d))))

-- The datagrams go out from the front of the queue in order, each with its address and its bytes, until
-- sendto fails or none waits; those that are left wait in order.
pub send_cached-Queue :
    (kernel : Sendto) (es : List Entry) (b : Buffer)
    → Small es
    → IsValid b
    → content b ≡ encodes es
    → length (content b) < 2 ^ 32
    → Returns (Left es) (
        send_cached kernel
          (suc (length (content b)))
          (bytes b.buffer)
          b.consumed
          (length (content b))
          b)
send_cached-Queue kernel es b small v w lt =
    let size = length-content b v in
    send_cached-Left kernel (suc (length (content b))) es (bytes b.buffer) b.consumed
      (length (content b)) b small v w (ap length w) lt
      (ap (λ n. take n (drop b.consumed (bytes b.buffer))) size ∙ w)
      (omega (arith, size, v.consumed_le, v.published_le, v.memory))
      (omega (arith, ap length w, shorter_queue es))
