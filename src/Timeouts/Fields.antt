-- ===== src/Timeouts/Fields.antt =====
-- What an assignment to one field of one event does to a field of every event.
use gsdm.Base.{ℕ, ◌≡◌, refl, Bool, true, false, Option, none, some, ◌==◌, if◌then◌else◌}
use gsdm.Timeouts.{Event, Store, change_at}
use gsdm.Base.Order.{is}

set_if :
    {B : Type 0} (get : Event → B) (v : B) (g : Event → Event)
    → ((e : Event) → get (g e) ≡ v)
    → (b : Bool) (e : Event) → get (if b then g e else e) ≡ (if b then v else get e)
set_if get v g sets true e = sets e
set_if get v g sets false e = refl

keep_if :
    {B : Type 0} (get : Event → B) (g : Event → Event)
    → ((e : Event) → get (g e) ≡ get e)
    → (b : Bool) (e : Event) → get (if b then g e else e) ≡ get e
keep_if get g keeps true e = keeps e
keep_if get g keeps false e = refl

-- The field that is assigned.
pub set_at :
    {B : Type 0} (get : Event → B) (v : B) (g : Event → Event)
    → ((e : Event) → get (g e) ≡ v)
    → (s : Store) (t : Option ℕ) (b : ℕ)
    → get (change_at s t g b) ≡ (if is t b then v else get (s b))
set_at get v g sets s none b = refl
set_at get v g sets s (some a) b = set_if get v g sets (a == b) (s b)

-- Any other field.
pub keep_at :
    {B : Type 0} (get : Event → B) (g : Event → Event)
    → ((e : Event) → get (g e) ≡ get e)
    → (s : Store) (t : Option ℕ) (b : ℕ) → get (change_at s t g b) ≡ get (s b)
keep_at get g keeps s none b = refl
keep_at get g keeps s (some a) b = keep_if get g keeps (a == b) (s b)
