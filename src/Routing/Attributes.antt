-- ===== src/Routing/Attributes.antt =====
-- The attributes that GetTypeId of model/offchain-routing.cc registers, and what ns-3 makes of them
-- when it creates a RoutingProtocol by its type: each initial value goes through its checker to its
-- accessor. Seconds is called with tenths, `tenths n` is Seconds (n / 10). EnableBroadcast and
-- UniformRv are members that no modelled function reads. The two rate limits are uint16_t behind a
-- checker for uint32_t. SetMaxQueueLen and SetMaxQueueTime are declared only and are read as
-- setting the member of their name.
pub mod Defaults
use cnrlchain.Base.{
  ℕ, ◌*◌, ◌%◌, ◌^◌, Bool, true, false, Option, none, some, ◌>>=◌, List, [], ◌∷◌, Time, ltb,
  if◌then◌else◌,
}
use cnrlchain.Base.Word.{u16_mod}
use cnrlchain.Routing.{Settings}

pub data Attribute : Type 0 where
  hello_interval rreq_retries rreq_rate_limit rerr_rate_limit node_traversal_time : Attribute
  next_hop_wait active_route_timeout my_route_timeout black_list_timeout : Attribute
  delete_period timeout_buffer net_diameter net_traversal_time path_discovery_time : Attribute
  max_queue_len max_queue_time allowed_hello_loss gratuitous_reply : Attribute
  destination_only enable_hello : Attribute

pub data AttributeValue : Type 0 where
  time_value : Time → AttributeValue
  uinteger_value : ℕ → AttributeValue
  boolean_value : Bool → AttributeValue

-- A time, an unsigned number with the bits of its checker, a Boolean; another value is refused.
abbrev as_time : (Time → Settings) → AttributeValue → Option Settings
as_time f (time_value t) = some (f t)
as_time f (uinteger_value n) = none
as_time f (boolean_value b) = none

abbrev as_uinteger : ℕ → (ℕ → Settings) → AttributeValue → Option Settings
as_uinteger bits f (time_value t) = none
as_uinteger bits f (uinteger_value n) = if ltb n (2 ^ bits) then some (f n) else none
as_uinteger bits f (boolean_value b) = none

abbrev as_boolean : (Bool → Settings) → AttributeValue → Option Settings
as_boolean f (time_value t) = none
as_boolean f (uinteger_value n) = none
as_boolean f (boolean_value b) = some (f b)

-- The checker and the accessor of each attribute.
unfoldable pub set_attribute : Attribute → AttributeValue → Settings → Option Settings
set_attribute hello_interval v s = as_time (λ t. record s { hello_interval = t }) v
set_attribute rreq_retries v s = as_uinteger 32 (λ n. record s { rreq_retries = n }) v
set_attribute rreq_rate_limit v s =
    as_uinteger 32 (λ n. record s { rreq_rate_limit = n % u16_mod }) v
set_attribute rerr_rate_limit v s =
    as_uinteger 32 (λ n. record s { rerr_rate_limit = n % u16_mod }) v
set_attribute node_traversal_time v s = as_time (λ t. record s { node_traversal_time = t }) v
set_attribute next_hop_wait v s = as_time (λ t. record s { next_hop_wait = t }) v
set_attribute active_route_timeout v s = as_time (λ t. record s { active_route_timeout = t }) v
set_attribute my_route_timeout v s = as_time (λ t. record s { my_route_timeout = t }) v
set_attribute black_list_timeout v s = as_time (λ t. record s { black_list_timeout = t }) v
set_attribute delete_period v s = as_time (λ t. record s { delete_period = t }) v
set_attribute timeout_buffer v s = as_uinteger 16 (λ n. record s { timeout_buffer = n }) v
set_attribute net_diameter v s = as_uinteger 32 (λ n. record s { net_diameter = n }) v
set_attribute net_traversal_time v s = as_time (λ t. record s { net_traversal_time = t }) v
set_attribute path_discovery_time v s = as_time (λ t. record s { path_discovery_time = t }) v
set_attribute max_queue_len v s = as_uinteger 32 (λ n. record s { max_queue_len = n }) v
set_attribute max_queue_time v s = as_time (λ t. record s { max_queue_time = t }) v
set_attribute allowed_hello_loss v s = as_uinteger 16 (λ n. record s { allowed_hello_loss = n }) v
set_attribute gratuitous_reply v s = as_boolean (λ b. record s { gratuitous_reply = b }) v
set_attribute destination_only v s = as_boolean (λ b. record s { destination_only = b }) v
set_attribute enable_hello v s = as_boolean (λ b. record s { enable_hello = b }) v

-- The initial values, in the order of registration.
unfoldable pub initial_values : (ℕ → Time) → (ℕ → Time) → List (Attribute × AttributeValue)
initial_values tenths milli_seconds =
    (hello_interval, time_value (tenths 10))
    ∷ (rreq_retries, uinteger_value 2)
    ∷ (rreq_rate_limit, uinteger_value 10)
    ∷ (rerr_rate_limit, uinteger_value 10)
    ∷ (node_traversal_time, time_value (milli_seconds 40))
    ∷ (next_hop_wait, time_value (milli_seconds 50))
    ∷ (active_route_timeout, time_value (tenths 30))
    ∷ (my_route_timeout, time_value (tenths 112))
    ∷ (black_list_timeout, time_value (tenths 56))
    ∷ (delete_period, time_value (tenths 150))
    ∷ (timeout_buffer, uinteger_value 2)
    ∷ (net_diameter, uinteger_value 35)
    ∷ (net_traversal_time, time_value (tenths 28))
    ∷ (path_discovery_time, time_value (tenths 56))
    ∷ (max_queue_len, uinteger_value 64)
    ∷ (max_queue_time, time_value (tenths 300))
    ∷ (allowed_hello_loss, uinteger_value 2)
    ∷ (gratuitous_reply, boolean_value true)
    ∷ (destination_only, boolean_value false)
    ∷ (enable_hello, boolean_value true)
    ∷ []

unfoldable pub set_attributes : List (Attribute × AttributeValue) → Settings → Option Settings
unfolding set_attribute
set_attributes [] s = some s
set_attributes ((a, v) ∷ rest) s = set_attribute a v s >>= λ s'. set_attributes rest s'
