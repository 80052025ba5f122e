-- ===== src/Carriers/Sending.antt =====
-- One write event of a TCP carrier (OnEvent in sources/gsdm/src/eventdrive/epoll/tcpcarrier.cpp).
use gsdm.Base.{
  ℕ, zero, suc, ◌<◌, ◌≡◌, refl, sym, ap, ◌∙◌, true, false, some, List, [], ◌∷◌, ◌++◌, take, length,
  arith, inl, inr, Bool-cases, ◌==◌, ==_iff, if◌then◌else◌, length-append, length-take,
}
use gsdm.Base.Returns
use gsdm.Base.Returns.{Returns, returns}
use gsdm.Buffer.{Sent, sent, send_failed, available}
use gsdm.Buffer.Valid.{content}
use gsdm.Buffer.Transfer.Consume.{accepted, tolerated, available_lem, write_to_tcp_fd-Written}
use gsdm.Process.{Process}
use gsdm.Process.Stream.{waiting}
use gsdm.Carriers.{write_event, stop_write}
use gsdm.Carriers.Verdict.{Modest, stopped, with_output}
use gsdm.Carriers.Reading.{Sound}

-- A kernel that takes something of what it is offered.
abbrev pub Takes : (List ℕ → Sent) → Type 0
Takes kernel = (bs : List ℕ) → 0 < length bs → 0 < accepted (kernel bs)

-- What a kernel takes at a write event.
abbrev pub taken : (List ℕ → Sent) → Process → List ℕ
taken kernel p = take (accepted (kernel (take 8388608 (waiting p)))) (waiting p)

-- One write event: a part of the stream is taken, and the write events end with the stream.
pub record Sending (kernel : List ℕ → Sent) (p q : Process) : Type 0 where
  pub sound : Sound q
  pub stream : taken kernel p ++ waiting q ≡ waiting p
  pub less : 0 < length (waiting p) → length (waiting q) < length (waiting p)
  pub over : length (waiting q) ≡ 0 → q.is_write ≡ false

took : (s : Sent) → 0 < accepted s → tolerated s ≡ true
unfolding accepted tolerated
took (sent n) h = refl
took (send_failed e) h = absurd (omega (arith, h))

pub nil_of : (xs : List ℕ) → length xs ≡ 0 → xs ≡ []
nil_of [] h = refl
nil_of (x ∷ xs) h = absurd (omega (arith, h))

take_of_nil : (n : ℕ) (xs : List ℕ) → xs ≡ [] → take n xs ++ xs ≡ xs
take_of_nil zero [] h = refl
take_of_nil (suc n) [] h = refl
take_of_nil n (x ∷ xs) h = absurd (omega (arith, ap length h))

pub positive : (n : ℕ) → (n == 0) ≡ false → 0 < n
positive n k = ground arith

module _ (kernel : List ℕ → Sent) (modest : Modest kernel) (takes : Takes kernel) where
  waits :
      (p : Process) → Sound p → (available p.output_buffer == 0) ≡ false → 0 < length (waiting p)
  waits p s h =
      rw (sym (available_lem p.output_buffer s.output_valid))
        (positive (available p.output_buffer) h)

  offers :
      (p : Process)
      → Sound p
      → (available p.output_buffer == 0) ≡ false
      → 0 < length (take 8388608 (waiting p))
  offers p s h = omega (arith, length-take {0} 8388608 (waiting p), waits p s h)

  shorter :
      (p : Process)
      → Sound p
      → (available p.output_buffer == 0) ≡ false
      → (left : List ℕ) → taken kernel p ++ left ≡ waiting p
      → length left < length (waiting p)
  shorter p s h left e =
      let n = accepted (kernel (take 8388608 (waiting p))) in
      omega (
        arith,
        ap length e,
        length-append (take n (waiting p)) left,
        length-take {0} n (waiting p),
        waits p s h,
        takes (take 8388608 (waiting p)) (offers p s h),
      )

  settle :
      (p q : Process)
      → Sound q
      → taken kernel p ++ waiting q ≡ waiting p
      → length (waiting q) < length (waiting p)
      → Returns
          (λ (r, goes_on). (goes_on ≡ true) × Sending kernel p r)
          (if available q.output_buffer == 0 then some (stop_write q, true) else some (q, true))
  settle p q t e l = elim (Bool-cases (available q.output_buffer == 0)) [
    | inl empty ↦ rw empty (
        returns (refl, record { sound = stopped q t; stream = e; less = λ h. l; over = λ h. refl }))
    | inr more ↦ rw more (
        returns (
          refl,
          record {
            sound = t;
            stream = e;
            less = λ h. l;
            over = λ h. absurd (omega (arith, h, waits q t more));
          },
        ))
  ]

  pub write_event-Sending :
      (p : Process)
      → Sound p
      → Returns (λ (q, goes_on). (goes_on ≡ true) × Sending kernel p q) (write_event kernel p)
  unfolding write_event
  write_event-Sending p s = elim (Bool-cases (available p.output_buffer == 0)) [
    | inl empty ↦
        let none_wait : length (waiting p) ≡ 0 =
          sym (available_lem p.output_buffer s.output_valid)
          ∙ (==_iff (available p.output_buffer) 0).0 empty in
        rw empty (
          returns (
            refl,
            record {
              sound = stopped p s;
              stream =
                  take_of_nil (accepted (kernel (take 8388608 (waiting p)))) (waiting p)
                    (nil_of (waiting p) none_wait);
              less = λ h. absurd (omega (arith, h, none_wait));
              over = λ h. refl;
            },
          ))
    | inr some_wait ↦ rw some_wait (
        Returns.bind
          (write_to_tcp_fd-Written kernel p.output_buffer 8388608 s.output_valid
            (modest (take 8388608 (waiting p))))
          λ (out, done, count) (w, r, c).
            rw
              (r
                ∙ took (kernel (take 8388608 (waiting p)))
                    (takes (take 8388608 (waiting p)) (offers p s some_wait)))
              (settle p (record p { output_buffer = out }) (with_output p out s w.valid) w.stream
                (shorter p s some_wait (content out) w.stream)))
  ]
