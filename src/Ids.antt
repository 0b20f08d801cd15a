-- ===== src/Ids.antt =====
-- domains/ids/Ids.h: the typed identifiers, each a string, with the `operator==` of each.
use kergit_server.Base.{String, Key, String_discrete, discrete_by, discrete_by₂}

pub record HubId : Type 0 where
  pub value : String

pub record ChannelId : Type 0 where
  pub value : String

pub record UserId : Type 0 where
  pub value : String

pub record ConnId : Type 0 where
  pub value : String

pub record NetStackId : Type 0 where
  pub value : String

pub record GlobalConnId : Type 0 where
  pub netstack_id : NetStackId
  pub conn_id : ConnId

unfoldable pub HubId_discrete : Discrete HubId
unfolding String_discrete
HubId_discrete = discrete_by (λ x. x.value) (λ a b e. λ i. record { value = e i }) String_discrete

unfoldable pub ChannelId_discrete : Discrete ChannelId
unfolding String_discrete
ChannelId_discrete =
    discrete_by (λ x. x.value) (λ a b e. λ i. record { value = e i }) String_discrete

unfoldable pub UserId_discrete : Discrete UserId
unfolding String_discrete
UserId_discrete = discrete_by (λ x. x.value) (λ a b e. λ i. record { value = e i }) String_discrete

unfoldable pub ConnId_discrete : Discrete ConnId
unfolding String_discrete
ConnId_discrete = discrete_by (λ x. x.value) (λ a b e. λ i. record { value = e i }) String_discrete

unfoldable pub NetStackId_discrete : Discrete NetStackId
unfolding String_discrete
NetStackId_discrete =
    discrete_by (λ x. x.value) (λ a b e. λ i. record { value = e i }) String_discrete

unfoldable pub GlobalConnId_discrete : Discrete GlobalConnId
unfolding NetStackId_discrete ConnId_discrete
GlobalConnId_discrete =
    discrete_by₂ (λ g. g.netstack_id) (λ g. g.conn_id)
      (λ a b e f. λ i. record { netstack_id = e i; conn_id = f i }) NetStackId_discrete
      ConnId_discrete

instance abbrev pub hub_id_key : Key HubId
hub_id_key = record { dec = HubId_discrete }

instance abbrev pub channel_id_key : Key ChannelId
channel_id_key = record { dec = ChannelId_discrete }

instance abbrev pub user_id_key : Key UserId
user_id_key = record { dec = UserId_discrete }

instance abbrev pub conn_id_key : Key ConnId
conn_id_key = record { dec = ConnId_discrete }

instance abbrev pub global_conn_id_key : Key GlobalConnId
global_conn_id_key = record { dec = GlobalConnId_discrete }
