-- ===== src/Route.antt =====
-- RoutingTableEntry of model/rtable.h and model/rtable.cc. The object behind `m_ipv4Route` is part
-- of the entry. A C++ copy of an entry shares that object; the one caller that writes through a
-- copy (RecvRReq) stores the copy back at once. What ns-3 says of an interface address is the
-- argument `net`.
pub mod Precursors
use cnrlchain.Base.{
  ℕ, ◌+◌, ◌%◌, Bool, true, false, List, [], ◌∷◌, ◌++◌, Address, Handle, Time, ◌+ℤ◌, ◌-ℤ◌, discard,
  exists, ◌≡◌, refl, ◌⊎◌, inl, inr, ◌==◌, if◌then◌else◌,
}
use cnrlchain.Base.Word.{u8_mod}

-- RouteFlags
pub data RouteFlags : Type 0 where
  valid invalid in_search : RouteFlags

abbrev pub is_valid : RouteFlags → Bool
is_valid valid = true
is_valid invalid = false
is_valid in_search = false

abbrev pub is_invalid : RouteFlags → Bool
is_invalid valid = false
is_invalid invalid = true
is_invalid in_search = false

abbrev pub is_in_search : RouteFlags → Bool
is_in_search valid = false
is_in_search invalid = false
is_in_search in_search = true

pub flag_cases : (f : RouteFlags) → (f ≡ valid) ⊎ (f ≡ invalid) ⊎ (f ≡ in_search)
flag_cases valid = inl refl
flag_cases invalid = inr (inl refl)
flag_cases in_search = inr (inr refl)

-- Ipv4InterfaceAddress: GetLocal, GetMask () == Ipv4Mask::GetOnes (), GetBroadcast, operator== and
-- the default constructor.
pub record Interfaces {ℓ} (I : Type ℓ) : Type ℓ where
  pub local : I → Address
  pub host_mask : I → Bool
  pub broadcast : I → Address
  pub same : I → I → Bool
  pub unset : I

-- Ipv4Route, as far as the entries use it.
pub record Ipv4Route : Type 0 where
  pub destination : Address
  pub gateway : Address
  pub source : Address
  pub output_device : Handle

pub record RoutingTableEntry {ℓ} (I : Type ℓ) : Type ℓ where
  pub valid_seq_no : Bool
  pub seq_no : ℕ
  pub hops : ℕ
  pub trans_amount : ℕ
  pub life_time : Time
  pub route : Ipv4Route
  pub iface : I
  pub flag : RouteFlags
  pub precursor_list : List Address
  pub req_count : ℕ
  pub black_list_state : Bool
  pub black_list_timeout : Time

-- Whether an address is in a vector: the loop of `LookupPrecursor`, and the inner loop of
-- `GetPrecursors`.
unfoldable pub has : Address → List Address → Bool
has a l = exists (λ i. i == a) l

-- The loop of `GetPrecursors` over the entry's list; `prec` is the caller's vector.
unfoldable pub add_missing : List Address → List Address → List Address
add_missing [] prec = prec
add_missing (i ∷ is) prec = add_missing is (if has i prec then prec else prec ++ i ∷ [])

module _ {ℓ} {I : Type ℓ} where
  -- The constructor of rtable.cc.
  unfoldable pub new_route :
      Interfaces I
      → Time
      → Handle
      → Address
      → Bool
      → ℕ
      → I
      → ℕ
      → ℕ
      → Address
      → Time
      → RoutingTableEntry I
  new_route net now dev dst v_seq_no seq_no iface hops trans_amount next_hop lifetime = record {
    valid_seq_no = v_seq_no;
    seq_no = seq_no;
    hops = hops;
    trans_amount = trans_amount;
    life_time = lifetime +ℤ now;
    route = record {
      destination = dst;
      gateway = next_hop;
      source = net.local iface;
      output_device = dev;
    };
    iface = iface;
    flag = valid;
    precursor_list = [];
    req_count = 0;
    black_list_state = false;
    black_list_timeout = now;
  }

  unfoldable pub lookup_precursor : Address → RoutingTableEntry I → Bool
  lookup_precursor id e = has id e.precursor_list

  unfoldable pub insert_precursor : Address → RoutingTableEntry I → RoutingTableEntry I × Bool
  unfolding lookup_precursor
  insert_precursor id e =
      if lookup_precursor id e
      then (e, false)
      else (record e { precursor_list = e.precursor_list ++ id ∷ [] }, true)

  unfoldable pub delete_precursor : Address → RoutingTableEntry I → RoutingTableEntry I × Bool
  delete_precursor id e =
      if has id e.precursor_list
      then (record e { precursor_list = discard (λ i. i == id) e.precursor_list }, true)
      else (e, false)

  unfoldable pub delete_all_precursors : RoutingTableEntry I → RoutingTableEntry I
  delete_all_precursors e = record e { precursor_list = [] }

  unfoldable pub is_precursor_list_empty : RoutingTableEntry I → Bool
  is_precursor_list_empty e = elim e.precursor_list [ [] ↦ true | _ ∷ _ ↦ false ]

  unfoldable pub get_precursors : RoutingTableEntry I → List Address → List Address
  unfolding is_precursor_list_empty add_missing
  get_precursors e prec =
      if is_precursor_list_empty e then prec else add_missing e.precursor_list prec

  unfoldable pub set_life_time : Time → Time → RoutingTableEntry I → RoutingTableEntry I
  set_life_time now lt e = record e { life_time = lt +ℤ now }

  unfoldable pub get_life_time : Time → RoutingTableEntry I → Time
  get_life_time now e = e.life_time -ℤ now

  unfoldable pub increment_rreq_cnt : RoutingTableEntry I → RoutingTableEntry I
  increment_rreq_cnt e = record e { req_count = (e.req_count + 1) % u8_mod }

  -- An entry that is INVALID already is left alone.
  unfoldable pub invalidate : Time → Time → RoutingTableEntry I → RoutingTableEntry I
  invalidate now bad_link_lifetime e =
      if is_invalid e.flag
      then e
      else record e { flag = invalid; req_count = 0; life_time = bad_link_lifetime +ℤ now }
