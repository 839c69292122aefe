-- ===== src/Webhook/Manager/Pauses.antt =====
-- Pausing a bot on a channel.
use prm.Prelude.{◌≡◌, Bool, true, false, ◌&&◌, if◌then◌else◌, ◌==◌, nat_eq}
use prm.Channels.{Uuid}
use prm.Webhook.Sets.{IsLean, IsLean-add_to, IsLean-drop_from, has-add_to, has-drop_from}
use prm.Webhook.Manager.{Manager, set_bot_paused, is_bot_paused}

-- After `SetBotPaused` the bot is paused on the channel exactly if that was asked, and every other
-- bot and channel is as before.
pub is_bot_paused-set_bot_paused :
    (m : Manager) (channel_id bot_id c b : Uuid) (paused : Bool)
    → is_bot_paused (set_bot_paused m channel_id bot_id paused) c b
      ≡ (if (channel_id == c) && (bot_id == b) then paused else is_bot_paused m c b)
unfolding is_bot_paused set_bot_paused
is_bot_paused-set_bot_paused m channel_id bot_id c b true =
    has-add_to channel_id bot_id c b m.pauses
is_bot_paused-set_bot_paused m channel_id bot_id c b false =
    has-drop_from channel_id bot_id c b m.pauses

-- Pausing and resuming keeps no channel with an empty pause set.
pub set_bot_paused-IsLean :
    (m : Manager) (channel_id bot_id : Uuid) (paused : Bool)
    → IsLean m.pauses
    → IsLean (set_bot_paused m channel_id bot_id paused).pauses
unfolding set_bot_paused
set_bot_paused-IsLean m channel_id bot_id true l = IsLean-add_to channel_id bot_id m.pauses l
set_bot_paused-IsLean m channel_id bot_id false l = IsLean-drop_from channel_id bot_id m.pauses l
