-- ===== src/Carriers/Drain.antt =====
-- Write events of a TCP carrier until nothing waits (OnEvent in
-- sources/gsdm/src/eventdrive/epoll/tcpcarrier.cpp).
use gsdm.Base.{
  ℕ, suc, ◌≤◌, ◌<◌, ◌≡◌, refl, sym, ap, ◌∙◌, true, false, Option, some, List, [], ◌∷◌, ◌++◌, length,
  arith, inl, inr, Bool-cases, ◌==◌, ==_iff, if◌then◌else◌, ◌>>=◌, length-append,
}
use gsdm.Base.Returns
use gsdm.Base.Returns.{Returns, returns}
use gsdm.Buffer.{Alloc, Errno, Received, Sent}
use gsdm.Process.{Process}
use gsdm.Process.Stream.{waiting}
use gsdm.Carriers.{App, Events, write_stage, on_event, tcp_on_event}
use gsdm.Carriers.Verdict.{Modest}
use gsdm.Carriers.Reading.{Sound}
use gsdm.Carriers.Sending.{Takes, taken, Sending, nil_of, positive, write_event-Sending}

-- The event that a connection can be written to, and nothing else.
abbrev pub only_writable : Events
only_writable = record { error = false; hangup = false; readable = false; writable = true }

abbrev pub Eager : List (List ℕ → Sent) → Type 0
Eager [] = Unit {0}
Eager (kernel ∷ kernels) = (Modest kernel × Takes kernel) × Eager kernels

-- The bytes that waited went out in order, and nothing is left to do.
abbrev pub Drained : Process → Process × List ℕ → Type 0
Drained p (q, wire) =
    (wire ≡ waiting p) × ((waiting q ≡ []) × ((q.is_write ≡ false) × (q.epoll_out ≡ false)))

module _ (alloc : Alloc) (app : App) (before : Errno) (answer : Received) where
  -- A write event for each kernel in turn, as long as OnEvent returns true: the process at the end, and
  -- the bytes that the kernels took.
  abbrev pub drain : List (List ℕ → Sent) → Process → Option (Process × List ℕ)
  drain [] p = some (p, [])
  drain (kernel ∷ kernels) p = do
    (q, goes_on) ← tcp_on_event alloc app kernel before answer only_writable p
    (r, wire) ← (if goes_on then drain kernels q else some (q, []))
    some (r, taken kernel p ++ wire)

  module _ (stays : (q : Process) → app.is_close_net q ≡ false) where
    event-Sending :
        (kernel : List ℕ → Sent) (p : Process)
        → Modest kernel
        → Takes kernel
        → Sound p
        → Returns
            (λ (q, goes_on). (goes_on ≡ true) × Sending kernel p q)
            (tcp_on_event alloc app kernel before answer only_writable p)
    unfolding tcp_on_event on_event write_stage
    event-Sending kernel p modest takes s = rw s.up (
        Returns.bind (write_event-Sending kernel modest takes p s)
          λ (q, goes_on) (on, sends). rw (on, stays q) (returns (refl, sends)))

    -- One event brings the end nearer by a byte at least.
    nearer :
        (kernel : List ℕ → Sent) (p q : Process) (n : ℕ)
        → Sending kernel p q
        → length (waiting p) ≤ suc n
        → length (waiting q) ≤ n
    nearer kernel p q n sends h =
        let parts = ap length sends.stream in
        elim (Bool-cases (length (waiting p) == 0)) [
          | inl empty ↦ omega (
            arith,
            parts,
            length-append (taken kernel p) (waiting q),
            (==_iff (length (waiting p)) 0).0 empty,
          )
          | inr more ↦ omega (arith, h, sends.less (positive (length (waiting p)) more))
        ]

    later_events :
        (kernels : List (List ℕ → Sent)) (p : Process)
        → Eager kernels
        → Sound p
        → length (waiting p) ≤ length kernels
        → (length (waiting p) ≡ 0 → p.is_write ≡ false)
        → Returns (Drained p) (drain kernels p)
    later_events [] p eager s h over =
        let none_wait : length (waiting p) ≡ 0 = omega (arith, h) in
        returns (
          sym (nil_of (waiting p) none_wait),
          (nil_of (waiting p) none_wait, (over none_wait, s.watch ∙ over none_wait)),
        )
    later_events (k ∷ ks) p ((modest, takes), eager) s h over =
        Returns.bind (event-Sending k p modest takes s) λ (q, goes_on) (on, sends). rw on (
          Returns.bind
            (later_events ks q eager sends.sound (nearer k p q (length ks) sends h) sends.over)
            λ (r, wire) (all, ended). returns (ap (λ w. taken k p ++ w) all ∙ sends.stream, ended))

    -- With as many write events as bytes wait and one more, at each of which the kernel takes a byte at
    -- least, all that waited is sent in order, and no more write events are asked for.
    pub tcp_on_event-Drained :
        (kernels : List (List ℕ → Sent)) (p : Process)
        → Eager kernels
        → Sound p
        → length (waiting p) < length kernels
        → Returns (Drained p) (drain kernels p)
    tcp_on_event-Drained [] p eager s h = absurd (omega (arith, h))
    tcp_on_event-Drained (k ∷ ks) p ((modest, takes), eager) s h =
        Returns.bind (event-Sending k p modest takes s) λ (q, goes_on) (on, sends). rw on (
          Returns.bind
            (later_events ks q eager sends.sound (nearer k p q (length ks) sends (omega (arith, h)))
              sends.over)
            λ (r, wire) (all, ended). returns (ap (λ w. taken k p ++ w) all ∙ sends.stream, ended))
