-- ===== src/Tests/Samples.antt =====
-- Sample data for the runs: one worker's configuration, messages, actions and a codec.
use goxo.Base.{[], ◌∷◌}
use goxo.Base.Int.{pos}
use goxo.Base.Text.{bytes}
use goxo.Json.{end}
use goxo.Worker.State.{Config, Delivery}

abbrev pub sample_config : Config
sample_config = record {
  command = bytes "handler" ∷ [];
  env = [];
  identity = record { agent = bytes "a"; key = bytes "k"; universe = bytes "u" };
  config = end;
  inputs = bytes "v3.in" ∷ [];
  outputs = bytes "v3.out" ∷ [];
  protocol = pos 2;
  timeout = pos 0;
}

abbrev pub sample_delivery : Delivery
sample_delivery = record {
  selector = bytes "v3.in";
  fields = end;
  chain = bytes "up" ∷ [];
  meta = record { message_id = bytes "m"; headers = end };
  tag = 7;
}
