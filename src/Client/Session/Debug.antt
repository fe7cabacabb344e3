-- ===== src/Client/Session/Debug.antt =====
-- `PrintDebug` of client/src/Session.cpp.
pub mod Reading
use f4mp.Base.{ℕ, Bool, false, Option, none, some, List, [], ◌∷◌, ◌++◌, length, Bytes, codes}
use f4mp.Types.{Vec3}
use f4mp.Client.Game.{get_player, id_or_zero}
use f4mp.Client.RemoteState.{RemotePlayer}
use f4mp.Client.Remotes.Drawing.{actor_of}
use f4mp.Client.Session.{Session, Moment}
use f4mp.Client.Session.Graph.{print_lines, is_some}
use f4mp.Client.Session.Printing.{bool_text, hex_text}
pub use f4mp.Client.Session.Debug.Reading.{
  BaseFacts, Facts, Formats, minus_one, or_minus_one, read_graph_float, or_false, read_graph_bool,
  concat, hex_id, base_id, heads_of, skin_of,
}

module _ (m : Moment) (t : Formats) where
  -- `static_cast<int>` of a part that may be missing; -1 then.
  abbrev int_or_minus : Option ℕ → Bytes
  int_or_minus none = codes "-1"
  int_or_minus (some n) = t.int n

  abbrev sex_text : Option BaseFacts → Bytes
  sex_text none = codes "-1"
  sex_text (some b) = t.int b.sex

  unfoldable pub head_line : Session → Bytes
  head_line s =
      let r = s.remotes in
      concat (
        codes "[F4MP] clone base "
        ∷ hex_id r.base_form_id
        ∷ codes ", "
        ∷ m.world.show (length r.players)
        ∷ codes " remote(s), interp "
        ∷ t.float s.config.interp_delay_ms
        ∷ codes " ms, clock offset "
        ∷ t.fixed 0 r.offset_ms
        ∷ codes " ms, sync "
        ∷ bool_text r.drive
        ∷ codes " pacify "
        ∷ bool_text r.pacify
        ∷ codes " ghost "
        ∷ bool_text r.ghost
        ∷ codes " duplicate "
        ∷ bool_text r.duplicate
        ∷ [])

  unfoldable pub local_lines : Option ℕ → List Bytes
  local_lines none = []
  local_lines (some player) =
      let f = t.facts player in
      concat (
        codes "  you: base "
        ∷ hex_id (base_id f.base)
        ∷ codes " heads "
        ∷ m.world.show (heads_of f.base)
        ∷ codes " skin "
        ∷ hex_id (skin_of f.base)
        ∷ codes " sex "
        ∷ sex_text f.base
        ∷ codes " 3D "
        ∷ bool_text f.is_3d_loaded
        ∷ codes " alpha "
        ∷ t.fixed 2 f.alpha
        ∷ [])
      ∷ []

  abbrev base_text : Option ℕ → Bytes
  base_text none = codes "none"
  base_text (some form) = hex_id form

  abbrev title : RemotePlayer → Bytes
  title p = concat (codes "  #" ∷ m.world.show p.id ∷ codes " " ∷ p.name ∷ [])

  unfoldable pub missing_line : RemotePlayer → Bytes
  missing_line p = concat (
      title p
      ∷ codes ": snapshots "
      ∷ m.world.show (length p.snapshots)
      ∷ codes " base "
      ∷ base_text p.base
      ∷ codes " baseFailed "
      ∷ bool_text p.base_failed
      ∷ codes " actor none"
      ∷ [])

  -- The distance to the local player; -1 where there is none.
  abbrev distance : Option ℕ → Vec3 → ℕ
  distance none pos = minus_one
  distance (some player) pos =
      let k = m.motion.maths in
      let lp = m.engine.position player in
      let square = λ (a b : ℕ). k.mul (k.sub a b) (k.sub a b) in
      m.motion.root (k.add (k.add (square pos.x lp.x) (square pos.y lp.y)) (square pos.z lp.z))

  unfoldable pub actor_line : RemotePlayer → Facts → Bytes
  actor_line p f = concat (
      title p
      ∷ codes ": actor "
      ∷ hex_id f.form_id
      ∷ codes " base "
      ∷ hex_id (base_id f.base)
      ∷ codes " 3Dloaded "
      ∷ bool_text f.is_3d_loaded
      ∷ codes " node "
      ∷ bool_text (is_some f.node_flags)
      ∷ codes " nodeFlags 0x"
      ∷ t.hex (id_or_zero f.node_flags)
      ∷ codes " alpha "
      ∷ t.fixed 2 f.alpha
      ∷ codes " ghost "
      ∷ bool_text f.ghost
      ∷ codes " disabled "
      ∷ bool_text f.disabled
      ∷ codes " dead "
      ∷ bool_text f.dead
      ∷ codes " pacified "
      ∷ bool_text p.actor_pacified
      ∷ codes " boolFlags 0x"
      ∷ t.hex f.bool_flags
      ∷ [])

  unfoldable pub place_line : Option ℕ → ℕ → Facts → Bytes
  place_line local actor f =
      let pos = m.engine.position actor in
      concat (
        codes "      pos ("
        ∷ t.fixed 0 pos.x
        ∷ codes ", "
        ∷ t.fixed 0 pos.y
        ∷ codes ", "
        ∷ t.fixed 0 pos.z
        ∷ codes ") dist "
        ∷ t.fixed 0 (distance local pos)
        ∷ codes " cell "
        ∷ hex_id (id_or_zero (m.engine.parent_cell actor))
        ∷ codes " heads "
        ∷ m.world.show (heads_of f.base)
        ∷ codes " skin "
        ∷ hex_id (skin_of f.base)
        ∷ codes " sex "
        ∷ sex_text f.base
        ∷ codes " flags 0x"
        ∷ t.hex f.form_flags
        ∷ codes " process "
        ∷ int_or_minus f.process_level
        ∷ codes " niFlags 0x"
        ∷ t.hex f.ni_flags
        ∷ [])

  unfoldable pub posture_line : RemotePlayer → Facts → Bytes
  posture_line p f = concat (
      codes "      inGameFlags 0x"
      ∷ t.hex f.in_game_flags
      ∷ codes " lifeState "
      ∷ t.int f.life_state
      ∷ codes " weaponState "
      ∷ t.int f.weapon_state
      ∷ codes " sneaking "
      ∷ m.world.show f.sneaking
      ∷ codes " sprinting "
      ∷ m.world.show f.sprinting
      ∷ codes " sitSleep "
      ∷ t.int f.sit_sleep_state
      ∷ codes " snapshots "
      ∷ m.world.show (length p.snapshots)
      ∷ codes " speed "
      ∷ t.fixed 0 p.speed
      ∷ codes " u/s"
      ∷ [])

  unfoldable pub graph_line : RemotePlayer → Facts → Bytes
  graph_line p f = concat (
      codes "      graph now: SpeedSampled "
      ∷ t.fixed 1 (read_graph_float f (codes "SpeedSampled"))
      ∷ codes " Direction "
      ∷ t.fixed 2 (read_graph_float f (codes "Direction"))
      ∷ codes " IsRunning "
      ∷ bool_text (read_graph_bool f (codes "IsRunning"))
      ∷ codes " IsSprinting "
      ∷ bool_text (read_graph_bool f (codes "IsSprinting"))
      ∷ codes " bAnimationDriven "
      ∷ bool_text (read_graph_bool f (codes "bAnimationDriven"))
      ∷ codes " (we write speed "
      ∷ t.fixed 0 p.speed
      ∷ codes ")"
      ∷ [])

  unfoldable pub clone_lines : Option ℕ → Option ℕ → RemotePlayer → List Bytes
  clone_lines local none p = missing_line p ∷ []
  clone_lines local (some actor) p =
      let f = t.facts actor in
      actor_line p f ∷ place_line local actor f ∷ posture_line p f ∷ graph_line p f ∷ []

  unfoldable pub all_clone_lines : Option ℕ → List RemotePlayer → List Bytes
  all_clone_lines local [] = []
  all_clone_lines local (p ∷ ps) =
      clone_lines local (actor_of m.engine p.actor) p ++ all_clone_lines local ps

  unfoldable pub print_debug : Session → Session
  print_debug s =
      let local = get_player m.engine m.engine.player in
      print_lines (head_line s ∷ (local_lines local ++ all_clone_lines local (s.remotes).players)) s
