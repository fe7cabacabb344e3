-- ===== src/Server/Frame.antt =====
-- What sending leaves alone: everything of the server but the clock and the calls of ENet.
use f4mp.Base.{
  if_holds, ℕ, Bool, Option, none, some, List, [], ◌∷◌, ◌≡◌, refl, ◌∙◌, if◌then◌else◌, Bytes,
}
use f4mp.Types.{PlayerState}
use f4mp.Protocol.Messages.{Channel}
use f4mp.Server.State.{Config, Player, Bot, Server, Env}
use f4mp.Server.Sending.{send, broadcast_to, broadcast, server_chat, kick}
use f4mp.Server.Connections.{say_goodbye}
use f4mp.Server.Joining.{
  send_update, introduce, introduce_players, introduce_bots, welcome, announce,
}
use f4mp.Server.Chatting.{relay_chat, slow_down, counted_chat}
use f4mp.Server.Bots.{dismiss, pick_target, move_bot, tell_bot, move_bots}

pub record Core : Type 0 where
  pub config : Config
  pub host : Bool
  pub players : List Player
  pub bots : List Bot
  pub last_bot_update : ℕ
  pub start_time : ℕ
  pub next_id : ℕ

abbrev pub core : Server → Core
core s = record {
  config = s.config;
  host = s.host;
  players = s.players;
  bots = s.bots;
  last_bot_update = s.last_bot_update;
  start_time = s.start_time;
  next_id = s.next_id;
}

core_if :
    (b : Bool) (s t u : Server)
    → core s ≡ core u
    → core t ≡ core u
    → core (if b then s else t) ≡ core u
core_if b s t u = if_holds (λ (v : Server). core v ≡ core u) b s t

module _ (env : Env) where
  core-send :
      (peer : ℕ) (channel : Channel) (bytes : Bytes) (s : Server)
      → core (send env peer channel bytes s) ≡ core s
  unfolding send
  core-send peer channel bytes s = core_if _ _ s s refl refl

  core-broadcast_to :
      (channel : Channel) (bytes : Bytes) (except : Option ℕ) (ps : List Player) (s : Server)
      → core (broadcast_to env channel bytes except ps s) ≡ core s
  unfolding broadcast_to
  core-broadcast_to channel bytes except [] s = refl
  core-broadcast_to channel bytes except (p ∷ ps) s =
      core-broadcast_to channel bytes except ps _
      ∙ core_if _ s (send env p.peer channel bytes s) s refl (core-send p.peer channel bytes s)

  pub core-broadcast :
      (channel : Channel) (bytes : Bytes) (except : Option ℕ) (s : Server)
      → core (broadcast env channel bytes except s) ≡ core s
  unfolding broadcast
  core-broadcast channel bytes except s = core-broadcast_to channel bytes except s.players s

  pub core-server_chat : (t : Bytes) (s : Server) → core (server_chat env t s) ≡ core s
  unfolding server_chat
  core-server_chat t s = core-broadcast _ _ none s

  pub core-kick : (p : Player) (reason : Bytes) (s : Server) → core (kick env p reason s) ≡ core s
  unfolding kick
  core-kick p reason s = core-send p.peer _ _ s

  pub core-say_goodbye : (p : Player) (s : Server) → core (say_goodbye env p s) ≡ core s
  unfolding say_goodbye
  core-say_goodbye p s =
      core_if p.handshaked _ s s (core-server_chat _ _ ∙ core-broadcast _ _ none s) refl

  core-send_update :
      (peer id : ℕ) (st : PlayerState) (s : Server) → core (send_update env peer id st s) ≡ core s
  unfolding send_update
  core-send_update peer id st s = core-send peer _ _ _

  core-introduce :
      (peer id : ℕ) (name : Bytes) (known : Bool) (st : PlayerState) (s : Server)
      → core (introduce env peer id name known st s) ≡ core s
  unfolding introduce
  core-introduce peer id name known st s =
      core_if known _ _ s (core-send_update peer id st _ ∙ core-send peer _ _ s)
        (core-send peer _ _ s)

  pub core-introduce_players :
      (peer : ℕ) (qs : List Player) (s : Server) → core (introduce_players env peer qs s) ≡ core s
  unfolding introduce_players
  core-introduce_players peer [] s = refl
  core-introduce_players peer (q ∷ qs) s =
      core-introduce_players peer qs _
      ∙ core_if _ s _ s refl (core-introduce peer q.id q.name q.has_state q.state s)

  pub core-introduce_bots :
      (peer : ℕ) (bs : List Bot) (s : Server) → core (introduce_bots env peer bs s) ≡ core s
  unfolding introduce_bots
  core-introduce_bots peer [] s = refl
  core-introduce_bots peer (b ∷ bs) s =
      core-introduce_bots peer bs _ ∙ core-introduce peer b.id b.name b.has_state b.state s

  pub core-welcome : (p : Player) (s : Server) → core (welcome env p s) ≡ core s
  unfolding welcome
  core-welcome p s = core-send p.peer _ _ s

  pub core-announce : (p : Player) (s : Server) → core (announce env p s) ≡ core s
  unfolding announce
  core-announce p s =
      core-server_chat _ _
      ∙ core-broadcast _ _ (some p.peer) _
      ∙ core-introduce_bots p.peer _ _
      ∙ core-introduce_players p.peer _ _
      ∙ core-welcome p s

  pub core-counted_chat :
      (p : Player) (t : Bytes) (s : Server) → core (counted_chat env p t s) ≡ core s
  unfolding counted_chat slow_down relay_chat
  core-counted_chat p t s =
      core_if _ _ _ s (core_if _ _ s s (core-send p.peer _ _ s) refl)
        (core_if _ s _ s refl (core-broadcast _ _ none s))

  core-tell_bot : (b : Bot) (s : Server) → core (tell_bot env b s) ≡ core s
  unfolding tell_bot
  core-tell_bot b s = core_if _ _ s s (core-broadcast _ _ none _) refl

  pub core-dismiss : (b : Bot) (s : Server) → core (dismiss env b s) ≡ core s
  unfolding dismiss
  core-dismiss b s = core-server_chat _ _ ∙ core-broadcast _ _ none s

  pub core-move_bots :
      (dt : ℕ) (bs : List Bot) (s : Server) → core (move_bots env dt bs s).1 ≡ core s
  unfolding move_bots
  core-move_bots dt [] s = refl
  core-move_bots dt (b ∷ bs) s =
      core-move_bots dt bs _ ∙ core-tell_bot (move_bot env dt (pick_target b.follow s.players) b) s
