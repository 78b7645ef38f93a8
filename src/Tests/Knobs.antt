-- ===== src/Tests/Knobs.antt =====
-- internal/config, internal/settings, main.go and the healthcheck at work.
use goxo.Base.{
  ◌+◌, ℕ, ◌^◌, ◌≡◌, ◌≢◌, refl, ◌↔◌, inl, arith, true, none, some, List, [], ◌∷◌, Result, ok, err,
  if◌then◌else◌, ◌==◌, map, All,
}
use goxo.Base.Int.{ℤ, pos, negsuc}
use goxo.Base.Text.{Str, bytes, str_Eq}
use goxo.Go.Fields.{fields, joined, Solid, space_width, fields-joined}
use goxo.Go.Decimal.{atoi, itoa}
use goxo.Config.{Config, Wire, no_wire, default, Yaml, DecodeError, eof, load, parse_file}
use goxo.Go.Files.{FileError, not_exist}
use goxo.Config.Laws.{FromWire, Reads, parse_file_iff}
use goxo.Go.Address.{join_host_port}
use goxo.Overlay.{Env, load_config, params}
use goxo.Overlay.Laws.{Source, Chosen, params-load_config}
use goxo.Settings.{Settings, Proto, fresh_once, parse}
use goxo.Settings.Parsing.{answers, parse_afresh, answers-parse_afresh}
use goxo.Health.{health_addr, probe_addr}
use goxo.Health.Meeting.{port_of, served_port, probe_addr-health_addr}

abbrev words : List Str
words = bytes "sh" ∷ bytes "-c" ∷ []

words-Solid : All (λ w. (w ≢ []) × Solid w) words
unfolding space_width
words-Solid = (((λ e. cc), (refl, (refl, tt))), (((λ e. cc), (refl, (refl, tt))), tt))

fields-joined_sample : fields (joined words) ≡ words
fields-joined_sample = fields-joined words words-Solid

-- The words of a text, wherever the white space stands; a no-break space is white space.
fields_words :
    fields (32 ∷ 115 ∷ 9 ∷ 10 ∷ 0xc3 ∷ 0xa0 ∷ 0xc2 ∷ 0xa0 ∷ 99 ∷ [])
    ≡ (115 ∷ []) ∷ (0xc3 ∷ 0xa0 ∷ []) ∷ (99 ∷ []) ∷ []
unfolding fields
fields_words = refl

atoi_signs :
    (atoi (bytes "-12") ≡ some (negsuc 11))
    × (atoi (bytes "+7") ≡ some (pos 7))
    × (atoi (bytes "1x") ≡ none)
unfolding atoi
atoi_signs = (refl, refl, refl)

atoi_overflow : atoi (bytes "9223372036854775808") ≡ none
unfolding atoi
atoi_overflow = refl

-- Every document that is not empty asks for three processes and names a handler by a scalar.
abbrev pub sample_decode : (Unit {0} → Result Str (List Str)) → Str → Result DecodeError Wire
sample_decode handler [] = err eof
sample_decode handler (b ∷ s) = elim (handler tt) [
  | err e ↦ err (DecodeError.failed e)
  | ok argv ↦ ok (record no_wire { handler = argv; pool = pos 3 })
]

abbrev pub sample_yaml : Yaml
sample_yaml = record {
  Node = Unit;
  is_scalar = λ _. true;
  to_text = λ _. ok (bytes "sh -c");
  to_texts = λ _. err (bytes "no sequence");
  decode = sample_decode;
}

abbrev pub sample_duration : Str → Result Str ℤ
sample_duration s = if s == bytes "1s" then ok (pos 1000000000) else err (bytes "no duration")

parse_file_iff_example :
    (parse_file sample_yaml sample_duration (bytes "x") ≡ ok default)
    ↔ ((w : Wire) × Reads sample_yaml (bytes "x") w × FromWire sample_duration w default)
parse_file_iff_example = parse_file_iff sample_yaml sample_duration (bytes "x") default

abbrev pub sample_env : Env
sample_env k =
    if k == bytes "GOXO_WORKER_CAP"
    then bytes "8"
    else if k == bytes "GOXO_SHUTDOWN_GRACE"
    then bytes "soon"
    else []

abbrev sample_file : Str → Result FileError Str
sample_file path = if path == bytes "/goxo.yaml" then ok (bytes "x") else err not_exist

abbrev sample_knobs : Config
sample_knobs = record default { handler = words; worker_pool_size = pos 3 }

sample_loads : load_config sample_yaml sample_duration sample_env sample_file ≡ ok sample_knobs
unfolding load_config load parse_file fields
sample_loads = refl

params-load_config_example :
    (w : Wire) × Source sample_yaml sample_env sample_file w
    × Chosen sample_duration sample_env w (params sample_duration sample_env sample_knobs)
params-load_config_example =
    params-load_config sample_yaml sample_duration sample_file sample_env sample_knobs sample_loads

-- The cap is the environment's; the grace there is no duration, so that the default stands.
sample_params :
    ((params sample_duration sample_env sample_knobs).worker_cap ≡ pos 8)
    × ((params sample_duration sample_env sample_knobs).shutdown_grace ≡ pos 10000000000)
unfolding params atoi
sample_params = (refl, refl)

abbrev pub no_settings : Settings
no_settings = record {
  key = [];
  bus_url = [];
  bus_exchange_topic = [];
  args = [];
  redis_url = [];
  healthcheck_host = bytes "::1";
  healthcheck_port = 0;
  cyclic_processing_limit = 0;
  depth_processing_limit = 0;
  accepted_agents = [];
  in_selectors = [];
  service_name = [];
}

probe_addr-health_addr_sample :
    (port_of (probe_addr sample_env) ≡ port_of (health_addr no_settings))
    ↔ (◌≡◌ {A = ℕ} 5000 (served_port no_settings))
probe_addr-health_addr_sample =
    probe_addr-health_addr sample_env no_settings 5000 (omega arith) (omega arith)
      (inl (refl, refl))

health_addr_v6 : health_addr no_settings ≡ bytes "[::1]:5000"
unfolding health_addr itoa join_host_port
health_addr_v6 = refl

-- A library in which a settings message is a text that is every field of it.
abbrev pub sample_proto : Proto
sample_proto = record {
  FileSet = Unit;
  Files = Unit;
  MessageDescriptor = Unit;
  Message = Str;
  parse_set = λ _. ok tt;
  new_files = λ _. ok tt;
  find = λ _ _. ok (some tt);
  unmarshal = λ _ s. if s == [] then err (bytes "empty") else ok s;
  text = λ m _. m;
  uint = λ m _. 2 ^ 32 + 5;
  texts = λ m _. m ∷ [];
  raw = λ m _. m;
  messages = λ m _. m ∷ [];
}

answers-parse_afresh_example :
    ((parse sample_proto [] (bytes "a") (fresh_once sample_proto)).1
      ≡ parse_afresh sample_proto [] (bytes "a"))
    × (answers sample_proto
          (bytes "z")
          ([] ∷ bytes "b" ∷ [])
          (parse sample_proto [] (bytes "a") (fresh_once sample_proto)).0
        ≡ map (parse_afresh sample_proto []) ([] ∷ bytes "b" ∷ []))
answers-parse_afresh_example =
    answers-parse_afresh sample_proto [] (bytes "z") (bytes "a") ([] ∷ bytes "b" ∷ [])
