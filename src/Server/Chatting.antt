-- ===== src/Server/Chatting.antt =====
-- server/src/Server.cpp, `HandleChat`.
use f4mp.Base.{
  ℕ, ◌+◌, ◌%◌, Bool, not, ◌||◌, Option, none, some, ltb, leb, ◌==◌, if◌then◌else◌, is_empty, keep,
  take, length, Bytes, codes, u32_mod,
}
use f4mp.Types.{server_id}
use f4mp.Packet.{Reader}
use f4mp.Protocol.Messages.{
  reliable, encode, checked, max_chat_bytes, ChatMsg, read_chat, id_chat_broadcast,
  write_chat_broadcast,
}
use f4mp.Server.State.{Player, Server, Env, tick_clock, put_player}
use f4mp.Server.Sending.{send, broadcast}

abbrev pub chat_window : ℕ
chat_window = 5_000_000_000

abbrev pub chat_burst : ℕ
chat_burst = 6

-- The chat window after one more message at the time `now`.
unfoldable pub count_chat : ℕ → Player → Player
count_chat now p =
    if leb (p.chat_window_start + chat_window) now
    then record p { chat_window_start = now; chat_window_count = 1 }
    else record p { chat_window_count = (p.chat_window_count + 1) % u32_mod }

-- `std::erase_if` of control characters.
abbrev pub is_text : ℕ → Bool
is_text c = not (ltb c 0x20 || c == 0x7F)

unfoldable pub clean_chat : Bytes → Bytes
clean_chat t = keep is_text (if ltb max_chat_bytes (length t) then take max_chat_bytes t else t)

module _ (env : Env) where
  unfoldable pub relay_chat : Player → Bytes → Server → Server
  relay_chat p t s =
      if is_empty t
      then s
      else broadcast env reliable
          (encode id_chat_broadcast (write_chat_broadcast (record { from = p.id; text = t }))) none
          s

  unfoldable pub slow_down : Player → Server → Server
  slow_down p s =
      if p.chat_window_count == chat_burst + 1
      then send env p.peer reliable
          (encode id_chat_broadcast
            (write_chat_broadcast (record { from = server_id; text = codes "Slow down." })))
          s
      else s

  -- `HandleChat` behind its first test, with the player whose window has been counted.
  unfoldable pub counted_chat : Player → Bytes → Server → Server
  counted_chat p t s =
      if ltb chat_burst p.chat_window_count then slow_down p s else relay_chat p (clean_chat t) s

  unfoldable pub on_chat : Player → Option ChatMsg → Server → Server
  on_chat p none s = s
  on_chat p (some msg) s =
      if is_empty msg.text
      then s
      else let counted = count_chat (env.clock s.reads) p in
        counted_chat counted msg.text (put_player counted (tick_clock s))

  unfoldable pub handle_chat : Player → Reader → Server → Server
  handle_chat p r s = on_chat p (checked read_chat r).0 s
