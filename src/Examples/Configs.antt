-- ===== src/Examples/Configs.antt =====
-- core/server_config.hpp and happy.cpp: the theorems at a file with one server.
use new_happy_server.Base.{ℕ, ◌≡◌, refl, true, false, some, List, [], ◌∷◌, if◌then◌else◌, arith}
use new_happy_server.Base.Texts.{codes}
use mathlib.Core.List.{Memᴰ}
use new_happy_server.Strings.{split, replace_loop}
use new_happy_server.Config.{
  Json, Elements, no_elements, element, Members, no_members, member, int_value, string_value, array,
  object, Platform, gives, crashes, ◌>>=◌, ServerConfig, new_manager, get_json, walk, get_int,
  get_string, get_bool, get_strings,
}
use new_happy_server.Config.Load.{
  prepare_one, prepare_loop, prepare, parse_one, parse_service, parse_services, parse,
  get_server_config, is_empty,
}
use new_happy_server.Config.Loaded.{IsTable, parse-IsTable}
use new_happy_server.Config.Served.{parse_one-missing_services}
use new_happy_server.Config.Complete.{reads_nothing, reads_one, parse-Reads}
use new_happy_server.Config.Prepared.{no_texts, text_and, prepare-joined}
use new_happy_server.Start.{
  System, Options, default_options, start, start_options, parse_args, main, runs,
}
use new_happy_server.Start.Arguments.{main-file}
use new_happy_server.Worker.{Services}
use new_happy_server.Start.Environment.{IsReady, main-IsReady}

abbrev service : Json
service = object (member (codes "name") (string_value (codes "main")) no_members)

abbrev services_member : Members
services_member = member (codes "services") (array (element service no_elements)) no_members

abbrev with_services : Members → Json
with_services ms =
    object
      (member (codes "sid") (int_value 1) (member (codes "name") (string_value (codes "s#sid")) ms))

abbrev one_server : Elements
one_server = element (with_services services_member) no_elements

abbrev pf : Platform
pf = record {
  parse_json = λ text. some (array one_server);
  write_json = λ v. codes "{}";
  int_text = λ n. codes "1";
  hardware_concurrency = 8;
  date = codes "20200101000000";
}

parse-IsTable_example : IsTable (parse pf (codes "x") 1 new_manager).0.data_
parse-IsTable_example = parse-IsTable pf (codes "x") 1 new_manager tt

parse_one-missing_services_example :
    (parse_one pf 1 (with_services no_members) ≡ crashes)
    × ((s : ServerConfig) × (parse_one pf 2 (with_services no_members) ≡ gives s)
        × (s.sid ≡ 1)
        × (s.name ≡ codes "s#sid")
        × (s.services ≡ []))
parse_one-missing_services_example =
    parse_one-missing_services pf
      (member (codes "sid") (int_value 1)
        (member (codes "name") (string_value (codes "s#sid")) no_members))
      1 (codes "s#sid") 2 refl refl refl refl refl refl

abbrev text : List ℕ
text = codes "[{}]"

prepares : prepare_one pf (with_services services_member) ≡ gives (codes "{}")
unfolding prepare_one prepare_loop prepare ◌>>=◌ get_json walk split get_int get_string replace_loop
prepares = refl

abbrev server : ServerConfig
server = record {
  sid = 1;
  thread = 8;
  loglevel = codes "DEBUG";
  name = codes "s#sid";
  outer_host = codes "*";
  inner_host = codes "127.0.0.1";
  startup = [];
  log = [];
  path = [];
  cpath = [];
  services =
      record {
        unique = false;
        threadid = 0;
        type = codes "lua";
        name = codes "main";
        config = codes "{}";
      }
      ∷ [];
}

reads : parse_one pf 1 (with_services services_member) ≡ gives server
unfolding parse_one parse_services parse_service ◌>>=◌ get_json walk split get_int get_string
    get_bool get_strings
reads = refl

written : prepare pf (codes "x") new_manager.config_ ≡ (text, gives tt)
written =
    prepare-joined pf (codes "x") one_server (codes "{}" ∷ []) refl
      (text_and prepares (omega arith) no_texts)

parse-Reads_example :
    (parse pf (codes "x") 1 new_manager
      ≡ (record { sid_ = 1; config_ = text; data_ = (1, server) ∷ [] }, gives tt))
    × (get_server_config (parse pf (codes "x") 1 new_manager).0 ≡ some server)
parse-Reads_example =
    parse-Reads pf (codes "x") 1 new_manager text one_server (server ∷ []) server written refl
      (reads_one reads reads_nothing) (refl, tt) (Memᴰ.head refl) refl

abbrev sys : System
sys = record {
  platform = pf;
  status = λ path. some true;
  extension = λ path. if is_empty path then [] else codes ".lua";
  to_int = λ text. some 1;
  content = λ path. some (codes "x");
  own_config = λ path. codes "x";
}

main-file_example : main sys (codes "-f" ∷ (codes "a.lua" ∷ [])) ≡ main sys []
main-file_example = main-file sys (codes "a.lua") [] refl refl

abbrev sv : Services
sv = record {
  registered = λ type. true;
  init_succeeds = λ type config id. true;
  name_of = λ type config id. [];
  after_dispatch = λ i m. m;
  keeps_broadcast = λ i m. refl;
}

abbrev args : List (List ℕ)
args = codes "-c" ∷ (codes "c.json" ∷ [])

runs_server : main sys args ≡ runs (start sys server text)
unfolding main parse_args start_options
runs_server = rw parse-Reads_example.0 refl

main-IsReady_example :
    (o : Options) × (parse_args sys args default_options ≡ gives o)
    × IsReady sys o (start sys server text)
main-IsReady_example = main-IsReady sys sv args (start sys server text) runs_server
