-- ===== src/Helper.antt =====
-- PaymentNetworkHelper of helper/payment-network-helper.h and .cc. ns-3's factory of objects, the
-- values of attributes, the names of nodes and the nodes with their applications are the parameter
-- `Installation`; its world `W` is what the applications and nodes of the simulation are. SetFill
-- calls a method that PaymentNetwork does not have and is left out.
use Prim.Native.String.{String}
use cnrlchain.Base.{
  ℕ, suc, ◌≡◌, refl, Option, some, List, [], ◌∷◌, ◌++◌, Address, ◌>>=◌, length, ap,
}

-- ObjectFactory (`F`), AttributeValue (`V`), Ptr<Node> (`N`) and Ptr<Application> (`A`).
pub record Installation {ℓ κ μ ν ξ} (F : Type ℓ) (V : Type κ) (N : Type μ) (A : Type ν) (W : Type ξ)
    : Type (ℓ ⊔ κ ⊔ μ ⊔ ν ⊔ ξ) where
  -- A new factory after SetTypeId (PaymentNetwork::GetTypeId ()).
  pub payment_network_factory : F
  pub set : String → V → F → F
  pub uinteger_value : ℕ → V
  pub ipv4_address_value : Address → V
  pub create : F → W → A × W
  pub add_application : N → A → W → W
  -- Names::Find; `none` is a null pointer.
  pub find_node : String → W → Option N

pub record PaymentNetworkHelper {ℓ} (F : Type ℓ) : Type ℓ where
  pub factory : F

module _ {ℓ κ μ ν ξ} {F : Type ℓ} {V : Type κ} {N : Type μ} {A : Type ν} {W : Type ξ}
    (v : Installation F V N A W) where
  unfoldable pub set_attribute : String → V → PaymentNetworkHelper F → PaymentNetworkHelper F
  set_attribute name value h = record h { factory = v.set name value h.factory }

  unfoldable pub new_helper : ℕ → PaymentNetworkHelper F
  unfolding set_attribute
  new_helper port =
      set_attribute "RemotePort" (v.uinteger_value port)
        (record { factory = v.payment_network_factory })

  unfoldable pub new_requesting_helper : ℕ → Address → PaymentNetworkHelper F
  unfolding set_attribute
  new_requesting_helper port content =
      set_attribute "RequestedContent" (v.ipv4_address_value content) (
        set_attribute "RemotePort" (v.uinteger_value port)
          (record { factory = v.payment_network_factory }))

  unfoldable pub install_priv : N → PaymentNetworkHelper F → W → A × W
  install_priv node h w =
      let (app, w') = v.create h.factory w in (app, v.add_application node app w')

  -- The containers are lists.
  unfoldable pub install : N → PaymentNetworkHelper F → W → List A × W
  unfolding install_priv
  install node h w = let (app, w') = install_priv node h w in (app ∷ [], w')

  -- AddApplication of a null node is not defined.
  unfoldable pub install_named : String → PaymentNetworkHelper F → W → Option (List A × W)
  unfolding install
  install_named name h w = v.find_node name w >>= λ node. some (install node h w)

  unfoldable pub install_all : List N → PaymentNetworkHelper F → W → List A × W
  unfolding install_priv
  install_all [] h w = ([], w)
  install_all (node ∷ nodes) h w =
      let (app, w') = install_priv node h w in
      let (apps, w'') = install_all nodes h w' in (app ∷ apps, w'')

  -- Two containers one after the other are one container, and each node gets one application.
  install_all-append :
      (ms ns : List N) (h : PaymentNetworkHelper F) (w : W)
      → let (apps, w') = install_all ms h w in
        let (more, w'') = install_all ns h w' in
        (install_all (ms ++ ns) h w ≡ (apps ++ more, w''))
        × (length (install_all ms h w).0 ≡ length ms)
  unfolding install_all
  install_all-append [] ns h w = (refl, refl)
  install_all-append (m ∷ ms) ns h w =
      let app = (install_priv m h w).0 in
      let (same, count) = install_all-append ms ns h (install_priv m h w).1 in
      (ap (λ r. (app ∷ r.0, r.1)) same, ap suc count)
