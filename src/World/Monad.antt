-- ===== src/World/Monad.antt =====
-- Commands: functions from the world to an outcome. A command may stop the node for good.
use ble_mesh_sensor.Common.{
  ℕ, ◌≡◌, refl, List, ◌∷◌, Bool, true, false, Option, none, some, if◌then◌else◌,
}
use native.Mathlib.Omega.{arith}
use ble_mesh_sensor.World.Calls.{Call, Rc, is_success}
use ble_mesh_sensor.World.Storage.{storage}
use ble_mesh_sensor.World.State.{World}

-- A failed assert, an access out of bounds or through a dead or NULL pointer, a division by zero,
-- the calls that do not return, and a wait that nothing ends.
pub data Stop : Type 0 where
  abort bad_access div_by_zero deep_sleep restart blocked : Stop

pub data Outcome (A : Type 0) : Type 0 where
  ret : A → World → Outcome A
  stop : Stop → World → Outcome A

abbrev pub M : Type 0 → Type 0
M A = World → Outcome A

abbrev pub ⊤ : Type 0
⊤ = Unit {0}

abbrev pub pure : {A : Type 0} → A → M A
pure a w = ret a w

abbrev pub halt : {A : Type 0} → Stop → M A
halt s w = stop s w

-- What follows a command runs only if the command returned.
abbrev pub and_then : {A B : Type 0} → Outcome A → (A → M B) → Outcome B
and_then (ret a w) f = f a w
and_then (stop s w) f = stop s w

infixl 5 ◌>>=◌ ◌>>◌
abbrev pub ◌>>=◌ : {A B : Type 0} → M A → (A → M B) → M B
◌>>=◌ m f w = and_then (m w) f

abbrev pub ◌>>◌ : {B : Type 0} → M ⊤ → M B → M B
m >> k = m >>= λ _. k

abbrev pub gets : {A : Type 0} → (World → A) → M A
gets f w = ret (f w) w

abbrev pub modify : (World → World) → M ⊤
modify f w = ret tt (f w)

-- `assert(b)`
abbrev pub assert : Bool → M ⊤
assert true w = ret tt w
assert false w = stop Stop.abort w

-- An access that is in bounds exactly when the test holds.
abbrev pub in_bounds : Bool → M ⊤
in_bounds true w = ret tt w
in_bounds false w = stop Stop.bad_access w

abbrev pub deref : {A : Type 0} → Option A → M A
deref none w = stop Stop.bad_access w
deref (some a) w = ret a w

abbrev pub logged : Call → World → World
logged c w = record w { calls = c ∷ w.calls }

-- A call of the code outside, for its return code, for a number or bytes that it gives, or for its
-- effect alone.
abbrev pub call_rc : Call → M Rc
call_rc c w = ret (w.host.rc (c ∷ w.calls)) (logged c w)

abbrev pub call_num : Call → M ℕ
call_num c w = ret (w.host.num (c ∷ w.calls)) (logged c w)

abbrev pub call_bytes : Call → M (List ℕ)
call_bytes c w = ret (w.host.bytes (c ∷ w.calls)) (logged c w)

abbrev pub call : Call → M ⊤
call c w = ret tt (logged c w)

-- ESP_ERROR_CHECK, and of a call
abbrev pub error_check : Rc → M ⊤
error_check err = assert (is_success err)

abbrev pub checked : Call → M ⊤
checked c = call_rc c >>= error_check

-- Where the command returns, the value and the world that it leaves satisfy the condition.
abbrev pub Ensures : {A : Type 0} → (A → World → Type 0) → Outcome A → Type 0
Ensures P (ret a w) = P a w
Ensures P (stop s w) = Unit

-- The command returns, and what it leaves satisfies the condition.
abbrev pub Returns : {A : Type 0} → (A → World → Type 0) → Outcome A → Type 0
Returns P (ret a w) = P a w
Returns P (stop s w) = ⊥

-- A condition after a chain follows from one after its first command.
pub Ensures-and_then :
    {A B : Type 0} (P : A → World → Type 0) (Q : B → World → Type 0) (m : Outcome A) (f : A → M B)
    → Ensures P m
    → ((a : A) (w : World) → P a w → Ensures Q (f a w))
    → Ensures Q (and_then m f)
Ensures-and_then P Q (ret a w) f h k = k a w h
Ensures-and_then P Q (stop s w) f h k = tt

pub Ensures-mono :
    {A : Type 0} (P Q : A → World → Type 0) (m : Outcome A)
    → Ensures P m
    → ((a : A) (w : World) → P a w → Q a w)
    → Ensures Q m
Ensures-mono P Q (ret a w) h k = k a w h
Ensures-mono P Q (stop s w) h k = tt

-- A chain of two commands, for a relation that composes.
pub Ensures-then :
    {A B : Type 0} (R : World → World → Type 0)
    → ((u v w : World) → R u v → R v w → R u w)
    → (w v : World) (m : M A) (k : A → M B) → R w v
    → Ensures (λ _. R v) (m v)
    → ((a : A) (x : World) → R w x → Ensures (λ _. R w) (k a x))
    → Ensures (λ _. R w) ((m >>= k) v)
Ensures-then R trans w v m k f hm hk =
    Ensures-and_then (λ _. R v) (λ _. R w) (m v) k hm λ a x g. hk a x (trans w v x f g)

pub Ensures-both :
    {A : Type 0} (P Q : A → World → Type 0) (m : Outcome A)
    → Ensures P m
    → Ensures Q m
    → Ensures (λ a w. P a w × Q a w) m
Ensures-both P Q (ret a w) hp hq = (hp, hq)
Ensures-both P Q (stop s w) hp hq = tt

-- A command that returns satisfies what it ensures.
pub Returns-of_Ensures :
    {A : Type 0} (P Q : A → World → Type 0) (m : Outcome A)
    → Returns P m
    → Ensures Q m
    → Returns Q m
Returns-of_Ensures P Q (ret a w) hp hq = hq
Returns-of_Ensures P Q (stop s w) hp hq = elim hp [ ]

pub Ensures-of_Returns :
    {A : Type 0} (P : A → World → Type 0) (m : Outcome A) → Returns P m → Ensures P m
Ensures-of_Returns P (ret a w) h = h
Ensures-of_Returns P (stop s w) h = tt

-- What a command that only makes calls leaves alone.
pub record OnlyCalls (w w' : World) : Type 0 where
  pub host : w'.host ≡ w.host
  pub allocated_packets : w'.allocated_packets ≡ w.allocated_packets
  pub peers : w'.peers ≡ w.peers
  pub node : w'.node ≡ w.node
  pub sensor : w'.sensor ≡ w.sensor
  pub app : w'.app ≡ w.app
  pub wifi : w'.wifi ≡ w.wifi
  pub kept : storage w.host w'.calls ≡ storage w.host w.calls

pub Ensures-if :
    {A : Type 0} (P : A → World → Type 0) (b : Bool) (m n : M A) (w : World)
    → Ensures P (m w)
    → Ensures P (n w)
    → Ensures P ((if b then m else n) w)
Ensures-if P true m n w hm hn = hm
Ensures-if P false m n w hm hn = hn

-- The first branch may use that the test holds.
pub Ensures-test :
    {A : Type 0} (P : A → World → Type 0) (b : Bool) (m n : M A) (w : World)
    → (b ≡ true → Ensures P (m w))
    → Ensures P (n w)
    → Ensures P ((if b then m else n) w)
Ensures-test P true m n w hm hn = hm refl
Ensures-test P false m n w hm hn = hn

-- Each branch may use what the test came to.
pub Ensures-split :
    {A : Type 0} (P : A → World → Type 0) (b : Bool) (m n : M A) (w : World)
    → (b ≡ true → Ensures P (m w))
    → (b ≡ false → Ensures P (n w))
    → Ensures P ((if b then m else n) w)
Ensures-split P true m n w hm hn = hm refl
Ensures-split P false m n w hm hn = hn refl

pub Returns-else :
    {A : Type 0} (P : A → World → Type 0) (b : Bool) (m n : M A) (w : World)
    → b ≡ false
    → Returns P (n w)
    → Returns P ((if b then m else n) w)
Returns-else P true m n w h hn = absurd (ground (arith, h))
Returns-else P false m n w h hn = hn

pub Returns-mono :
    {A : Type 0} (P Q : A → World → Type 0) (m : Outcome A)
    → Returns P m
    → ((a : A) (w : World) → P a w → Q a w)
    → Returns Q m
Returns-mono P Q (ret a w) h k = k a w h
Returns-mono P Q (stop s w) h k = elim h [ ]

pub Ensures-elim :
    {A B : Type 0} (P : B → World → Type 0) (o : Option A) (m : M B) (k : A → M B) (w : World)
    → Ensures P (m w)
    → ((a : A) → Ensures P (k a w))
    → Ensures P ((elim o as (λ _. M B) [ none ↦ m | some a ↦ k a ]) w)
Ensures-elim P none m k w hm hk = hm
Ensures-elim P (some a) m k w hm hk = hk a

pub Returns-and_then :
    {A B : Type 0} (P : A → World → Type 0) (Q : B → World → Type 0) (m : Outcome A) (f : A → M B)
    → Returns P m
    → ((a : A) (w : World) → P a w → Returns Q (f a w))
    → Returns Q (and_then m f)
Returns-and_then P Q (ret a w) f h k = k a w h
Returns-and_then P Q (stop s w) f h k = elim h [ ]

pub OnlyCalls-trans : (u v w : World) → OnlyCalls u v → OnlyCalls v w → OnlyCalls u w
OnlyCalls-trans u v w a b = ground arith
