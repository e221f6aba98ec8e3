-- ===== src/Tribe/Stuck.antt =====
-- A join message that can never be applied: it stays in the buffer, and processIntents takes it up
-- again in every round.
use snap.Base.{◌≡◌, List, [], ◌∷◌, some}
use snap.Agreement.{PluginItem}
use snap.Tribe.{
  Replica, AgreementMsg, Member, Address, agreement_at, find_member, join_agreement_msg,
}

-- The member of the message is in an agreement that has plugins, so it can join no other one.
record IsRefused (r : Replica) (m : AgreementMsg) : Type 0 where
  goal : Address
  member : Member
  current : Address
  plugin : PluginItem
  plugins : List PluginItem
  has_goal : agreement_at r m.agreement_name ≡ some goal
  has_member : find_member r m.member_name ≡ some member
  has_current : member.plugin_agreement ≡ some current
  has_plugins : (r.heap current).items.plugins ≡ plugin ∷ plugins

-- The buffer holds this message alone.
abbrev with_join : Replica → AgreementMsg → Replica
with_join r m = record r { intent_buffer = join_agreement_msg m ∷ [] }
