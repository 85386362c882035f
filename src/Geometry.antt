-- ===== src/Geometry.antt =====
-- The computations with coordinates in game_logic/game.cpp.
use upzp_game_process.Prelude.{if◌then◌else◌}
use upzp_game_process.Doubles.{Doubles}
use upzp_game_process.Player.{Coordinates}

module _ {R F : Type 0} (fl : Doubles R F) where
  abbrev pub earth_radius : R
  earth_radius = fl.literal 63710000 1

  -- The place so many meters from another one.
  unfoldable pub displaced : Coordinates R → R → R → Coordinates R
  displaced c dx dy = record {
    longitude = fl.add c.longitude (
        fl.div (fl.mul (fl.div dx earth_radius) (fl.div (fl.literal 1800 1) fl.pi))
          (fl.cos (fl.div (fl.mul c.latitude fl.pi) (fl.literal 1800 1))));
    latitude =
        fl.add c.latitude (fl.mul (fl.div dy earth_radius) (fl.div (fl.literal 1800 1) fl.pi));
  }

  unfoldable pub latitude_to_meters : R → R
  latitude_to_meters latitude = fl.mul latitude (fl.literal 1113200 1)

  unfoldable pub longitude_to_meters : R → R → R
  longitude_to_meters longitude latitude =
      fl.mul (fl.div (fl.mul (fl.literal 400750000 1) (fl.cos latitude)) (fl.literal 3600 1))
        longitude

  -- The point of the segment that is taken for the nearest one, with `param` its place on it.
  unfoldable pub nearest : R → R → R → R → R → R × R
  nearest param x1 y1 x2 y2 =
      if fl.lt param (fl.literal 0 0)
      then (x1, y1)
      else if fl.lt (fl.literal 10 1) param
      then (x2, y2)
      else (fl.add x1 (fl.mul param (fl.sub x2 x1)), fl.add y1 (fl.mul param (fl.sub y2 y1)))

  unfoldable pub point_box_distance : Coordinates R → Coordinates R → Coordinates R → R
  point_box_distance box old new =
      let x = longitude_to_meters box.longitude box.latitude in
      let y = latitude_to_meters box.latitude in
      let x1 = longitude_to_meters old.longitude old.latitude in
      let y1 = latitude_to_meters old.latitude in
      let x2 = longitude_to_meters new.longitude new.latitude in
      let y2 = latitude_to_meters new.latitude in
      let a = fl.sub x x1 in
      let b = fl.sub y y1 in
      let c = fl.sub x2 x1 in
      let d = fl.sub y2 y1 in
      let dot = fl.add (fl.mul a c) (fl.mul b d) in
      let len_sq = fl.add (fl.mul c c) (fl.mul d d) in
      let param = if fl.ne len_sq (fl.literal 0 0) then fl.div dot len_sq else fl.minus_one in
      let (xx, yy) = nearest param x1 y1 x2 y2 in
      let dx = fl.sub x xx in let dy = fl.sub y yy in fl.sqrt (fl.add (fl.mul dx dx) (fl.mul dy dy))
