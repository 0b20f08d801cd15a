-- ===== src/Subscription/Topics.antt =====
-- app/managers/subscription/Topic.h: topics keyed on the typed ids.
use kergit_server.Base.{String, Key, String_discrete, discrete_by₂}
use kergit_server.Ids.{HubId, ChannelId, UserId}

pub data TopicKind : Type 0 where
  hub channel user : TopicKind

pub record Topic : Type 0 where
  pub kind : TopicKind
  pub primary : String
  pub secondary : String

unfoldable pub hub_topic : HubId → Topic
hub_topic h = record { kind = hub; primary = h.value; secondary = "" }

unfoldable pub channel_topic : HubId → ChannelId → Topic
channel_topic h c = record { kind = channel; primary = h.value; secondary = c.value }

unfoldable pub user_topic : UserId → Topic
user_topic u = record { kind = user; primary = u.value; secondary = "" }

unfoldable pub extract_hub_id : Topic → HubId
extract_hub_id t = elim t.kind [ user ↦ record { value = "" } | _ ↦ record { value = t.primary } ]

unfoldable pub extract_channel_id : Topic → ChannelId
extract_channel_id t = elim t.kind [
  | channel ↦ record { value = t.secondary }
  | _ ↦ record { value = "" }
]

unfoldable pub extract_user_id : Topic → UserId
extract_user_id t = elim t.kind [ user ↦ record { value = t.primary } | _ ↦ record { value = "" } ]

TopicKind_discrete : Discrete TopicKind
TopicKind_discrete = hlevel

names_discrete : Discrete (String × String)
unfolding String_discrete
names_discrete =
    discrete_by₂ (λ p. p.0) (λ p. p.1) (λ a b e f. λ i. (e i, f i)) String_discrete String_discrete

unfoldable pub Topic_discrete : Discrete Topic
unfolding TopicKind_discrete names_discrete
Topic_discrete =
    discrete_by₂ (λ t. t.kind) (λ t. (t.primary, t.secondary))
      (λ a b e f. λ i. record { kind = e i; primary = (f i).0; secondary = (f i).1 })
      TopicKind_discrete names_discrete

instance abbrev pub topic_key : Key Topic
topic_key = record { dec = Topic_discrete }
