-- ===== src/Hub/Domain.antt =====
-- domains/Hub.h and domains/Channel.h.
use kergit_server.Base.{String}
use kergit_server.Base.Map.{Map, put, empty}
use kergit_server.Ids.{HubId, ChannelId, UserId, user_id_key}
use kergit_server.Hub.RolePolicy.{Role, owner}

pub data ChannelType : Type 0 where
  chat voice : ChannelType

pub record Hub : Type 0 where
  pub name : String
  pub id : HubId
  pub owner : UserId
  pub avatar_seed : String
  pub members : Map UserId Role

-- The constructor enters the owner as a member.
unfoldable pub make_hub : String → HubId → UserId → Hub
make_hub name id owner_id = record {
  name = name;
  id = id;
  owner = owner_id;
  avatar_seed = "";
  members = put owner_id owner empty;
}

unfoldable pub set_member_role : UserId → Role → Hub → Hub
set_member_role uid role hub = record hub { members = put uid role hub.members }

pub record Channel : Type 0 where
  pub name : String
  pub id : ChannelId
  pub hub_id : HubId
  pub type : ChannelType
