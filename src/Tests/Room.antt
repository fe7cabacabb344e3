-- ===== src/Tests/Room.antt =====
-- The bots, the packets and the chat of a small server.
use f4mp.Base.{◌≡◌, List, [], ◌∷◌, codes, true}
use f4mp.Server.State.{Player, Server, mirror}
use f4mp.Server.Bots.{new_bot, first_player_with_state}
use f4mp.Server.Commands.{bot_remove}
use f4mp.Server.Handlers.{handle_packet}
use f4mp.Server.Clearing.{bot_remove_all}
use f4mp.Server.Leading.{LeastOf, first_player_with_state-LeastOf}
use f4mp.Server.Isolation.{Apart, handle_packet-Apart}
use f4mp.Tests.World.{test_env, guest, nora, preston, busy_server, hello_packet}

abbrev bots_here : Server
bots_here = record busy_server {
  bots = new_bot test_env mirror (codes "Ada") 3 ∷ new_bot test_env mirror (codes "Cait") 4 ∷ [];
  next_id = 5;
}

bot_remove_all_example :
    ((bot_remove test_env (codes "all") bots_here).bots ≡ [])
    × ((bot_remove test_env (codes "all") bots_here).players ≡ bots_here.players)
bot_remove_all_example = bot_remove_all test_env bots_here

abbrev leaders : List Player
leaders = guest ∷ record preston { has_state = true } ∷ record nora { has_state = true } ∷ []

first_player_with_state-LeastOf_example : LeastOf (first_player_with_state leaders) leaders
first_player_with_state-LeastOf_example = first_player_with_state-LeastOf leaders

handle_packet-Apart_example : Apart 7 bots_here (handle_packet test_env 7 hello_packet bots_here)
handle_packet-Apart_example = handle_packet-Apart test_env 7 hello_packet bots_here
