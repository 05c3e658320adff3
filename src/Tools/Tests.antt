-- ===== src/Tools/Tests.antt =====
-- A small file system and a shell for the theorems on the skills below skills/.
use Prim.Native.Char.{Char, code}
use orion_dock.Prelude.{
  ◌==◌, All, Bool-cases, inl, inr, eqb, arith, if◌then◌else◌, ℕ, ◌≤◌, String, ◌≡◌, refl, ◌⊎◌, Bool,
  true, false, Option, none, some, List, [], ◌∷◌, Dict, lookup, insert, contains_text, suc,
  replace_char,
}
use orion_dock.Skills.Manifest.{SkillManifest}
use orion_dock.Skills.Registry.{ok}
use orion_dock.Skills.Executor.{ToolOutput, ToolParams}
use orion_dock.Tools.Host.{
  begins_with, path_from, FilePath, Io, Os, Json, display, path_from, begins_with, parent,
  join_file_name,
}
use orion_dock.Tools.Shell.{run_command, check_safety, is_missing, Host}
use orion_dock.Tools.Shell
use orion_dock.Tools.Install
use orion_dock.Tools.Install.Tool
use orion_dock.Tools.Install.{Ascii, EnvironmentSnapshot, sanitize_name}
use orion_dock.Tools.Install.Names.{Lowers, is_name_char}
use orion_dock.Tools.Install.Flow.{Probes, Decoder}
use orion_dock.Tools.Install.Reach.{Wanted, Given, Reach, execute_tool-Reach}
use orion_dock.Tools.Shell.Safety.{IsSafe, run_command-IsSafe}
use orion_dock.Tools.Toolbox
use orion_dock.Tools.Toolbox.Calls
use orion_dock.Tools.Toolbox.{
  ℤ, DockerExecSkill, Response, Http, Codec, Cases, check_packages, install_command,
}
use orion_dock.Tools.Toolbox.Safety.{Sent, execute_tool-Sent}
use orion_dock.Tools.Http
use orion_dock.Tools.Http.Requests
use orion_dock.Urls.{Url, UrlHost, IpAddr, Urls}
use orion_dock.Tools.Http.{is_private_ip}
use orion_dock.Tools.Http.Requests.{Client}
use orion_dock.Tools.Http.Safety.{Requested, execute_tool-Requested}
use orion_dock.Tools.Filesystem.{
  is_within_allowed_roots, is_traversal, Session, new, read_file, execute_tool, file_fields,
}
use orion_dock.Tools.Filesystem.Paths.{Inside}
use orion_dock.Tools.Filesystem.Confined.{Confined, execute_tool-Confined}
use orion_dock.Tools.Filesystem.Reads.{read_file-Inside}

-- Values that are texts.
abbrev texts : Json String
texts = record {
  object = λ fields. "{}";
  array = λ values. "[]";
  text = λ s. s;
  number = λ n. "0";
  boolean = λ b. "true";
  to_string = some;
  to_number = λ s. none;
  no_metadata = "";
}

abbrev manifest : SkillManifest String
manifest = record {
  id = record { text = "s" };
  name = "S";
  version = "1";
  description = "";
  license = none;
  category = "";
  keywords = [];
  runtime = "Native";
  min_orion_version = "0";
  platforms = [];
  capabilities = [];
  permissions = [];
  secrets = [];
  config_defaults = λ k. none;
}

-- A world is the files by their names; there are no links, and /data is there.
abbrev disk : Os (Dict String)
disk = record {
  exists = λ path w. is_there (lookup (display path) w);
  is_file = λ path w. is_there (lookup (display path) w);
  is_dir = λ path w. false;
  canonicalize = λ path w. Io.done path;
  metadata_len = λ path w. Io.done 5;
  read_to_string = λ path w. found (lookup (display path) w);
  create_dir_all = λ path w. (Io.done tt, w);
  write = λ path content w. (Io.done tt, insert (display path) content w);
  read_dir = λ path w. Io.done [];
  glob = λ pattern w. Io.done [];
}
  where
    is_there : Option String → Bool
    is_there none = false
    is_there (some s) = true

    found : Option String → Io String
    found none = Io.failed "no such file"
    found (some s) = Io.done s

abbrev session : Session String (Dict String)
session = record {
  skill = new manifest (("/" ∷ "data" ∷ []) ∷ []);
  world = ("/data", "") ∷ ("/data/a.txt", "hello") ∷ [];
}

abbrev shown : List String → String
shown l = "[]"

abbrev test_path : FilePath
test_path = "/" ∷ "data" ∷ "a.txt" ∷ []

abbrev read : ToolOutput String
read = record {
  success = true;
  payload = some "{}";
  error = none;
  structured_failure = none;
  metadata = "";
}

test_read : read_file texts disk shown "/data/a.txt" session ≡ (ok read, session)
unfolding read_file display lookup is_traversal contains_text path_from is_within_allowed_roots
    begins_with replace_char
test_read = refl

read_file-Inside_example :
    (path : FilePath) × (size : ℕ) × (content : String) × Inside texts disk shown
      session.skill.allowed_roots session.world path
    × (disk.metadata_len path session.world ≡ Io.done size)
    × (size ≤ 1048576)
    × (disk.read_to_string path session.world ≡ Io.done content)
    × (read.payload ≡ some (texts.object (file_fields texts disk shown path content size)))
read_file-Inside_example =
    read_file-Inside texts disk shown "/data/a.txt" session session read test_read refl

abbrev params : ToolParams String
params = record { values = ("path", "/data/b.txt") ∷ ("content", "x") ∷ [] }

test_write :
    lookup "/data/b.txt" (execute_tool texts disk shown "write_file" params session).1.world
    ≡ some "x"
unfolding execute_tool display lookup insert is_traversal path_from parent begins_with
    join_file_name
test_write = refl

execute_tool-Confined_example :
    let after = (execute_tool texts disk shown "write_file" params session).1 in
    Confined texts disk shown session.skill.allowed_roots session.world after.world
    × (after.skill.allowed_roots ≡ session.skill.allowed_roots)
execute_tool-Confined_example = execute_tool-Confined texts disk shown "write_file" params session

-- A shell that runs nothing and counts the calls.
abbrev host : Host ℕ
host = record {
  is_dir = λ dir w. true;
  output = λ command dir secs w. (
    some (Io.done (record { stdout = "hi"; stderr = ""; success = true; code = some 0 })),
    suc w,
  );
}

abbrev same : String → String
same s = s

test_run :
    (run_command texts "-1" host same same (Shell.new manifest) "echo hi" none (some 90) 0).1 ≡ 1
unfolding run_command
test_run = refl

test_blocked :
    (run_command texts "-1" host same same (Shell.new manifest) "sudo reboot" none none 0).1 ≡ 0
unfolding run_command
test_blocked = refl

-- The text of this pattern has a capital letter, and the command is lowered before.
test_lowered : check_safety {Value = String} same same (Shell.new manifest) "chown -r root /" ≡ none
unfolding check_safety
test_lowered = refl

run_command-IsSafe_example :
    let after =
      run_command texts "-1" host same same (Shell.new manifest) "echo hi" none (some 90) 0 in
    ((after.1 ≡ 0) × (out : ToolOutput String) × (after.0 ≡ some out) × (out.success ≡ false))
    ⊎ (IsSafe same same (Shell.new manifest) "echo hi"
        × (is_missing texts "-1" host same same none 0 ≡ false)
        × (secs : ℕ) × (secs ≤ 30)
        × (after.1 ≡ (host.output "echo hi" none secs 0).1))
run_command-IsSafe_example =
    run_command-IsSafe texts "-1" host same same (Shell.new manifest) "echo hi" none (some 90) 0

abbrev capitals : List (ℕ × Char)
capitals =
    (b'A', "a")
    ∷ (b'B', "b")
    ∷ (b'C', "c")
    ∷ (b'D', "d")
    ∷ (b'E', "e")
    ∷ (b'F', "f")
    ∷ (b'G', "g")
    ∷ (b'H', "h")
    ∷ (b'I', "i")
    ∷ (b'J', "j")
    ∷ (b'K', "k")
    ∷ (b'L', "l")
    ∷ (b'M', "m")
    ∷ (b'N', "n")
    ∷ (b'O', "o")
    ∷ (b'P', "p")
    ∷ (b'Q', "q")
    ∷ (b'R', "r")
    ∷ (b'S', "s")
    ∷ (b'T', "t")
    ∷ (b'U', "u")
    ∷ (b'V', "v")
    ∷ (b'W', "w")
    ∷ (b'X', "x")
    ∷ (b'Y', "y")
    ∷ (b'Z', "z")
    ∷ []

abbrev lower_by : List (ℕ × Char) → Char → Char
lower_by [] c = c
lower_by ((n, l) ∷ table) c = let rest = lower_by table c in if eqb (code c) n then l else rest

lower_by-cases :
    (table : List (ℕ × Char)) (c : Char)
    → All (λ p. is_name_char (code p.1) ≡ true) table
    → (is_name_char (code (lower_by table c)) ≡ true)
      ⊎ ((lower_by table c ≡ c) × All (λ p. eqb (code c) p.0 ≡ false) table)
lower_by-cases [] c h = inr (refl, tt)
lower_by-cases ((n, l) ∷ table) c (clean, h) = elim (Bool-cases (eqb (code c) n)) [
  | inl found ↦ inl (rw found clean)
  | inr other ↦ elim (lower_by-cases table c h) [
    | inl good ↦ inl (rw other good)
    | inr (same, misses) ↦ inr (rw other same, (other, misses))
  ]
]

abbrev ascii : Ascii
ascii = record { to_lowercase = λ s. s; lower_char = lower_by capitals }

ascii-Lowers : Lowers ascii
ascii-Lowers c h =
    elim (lower_by-cases capitals c (
      refl,
      (
        refl,
        (
          refl,
          (
            refl,
            (
              refl,
              (
                refl,
                (
                  refl,
                  (
                    refl,
                    (
                      refl,
                      (
                        refl,
                        (
                          refl,
                          (
                            refl,
                            (
                              refl,
                              (
                                refl,
                                (
                                  refl,
                                  (
                                    refl,
                                    (
                                      refl,
                                      (
                                        refl,
                                        (
                                          refl,
                                          (
                                            refl,
                                            (refl, (refl, (refl, (refl, (refl, (refl, tt)))))),
                                          ),
                                        ),
                                      ),
                                    ),
                                  ),
                                ),
                              ),
                            ),
                          ),
                        ),
                      ),
                    ),
                  ),
                ),
              ),
            ),
          ),
        ),
      ),
    )) [ inl good ↦ good | inr (same, misses) ↦ rw same (ground arith) ]

test_name : sanitize_name ascii "--My Script!! v2--" ≡ "my-script-v2"
unfolding sanitize_name
test_name = refl

abbrev machine : EnvironmentSnapshot
machine = record {
  is_containerized = false;
  os = "linux";
  available_package_managers = "apk" ∷ [];
  writable_paths = [];
  has_network = true;
  host_os_hint = "linux";
}

-- A machine whose shell does what it is told; the world counts the commands.
abbrev probes : Probes ℕ
probes = record {
  snapshot = λ w. (machine, w);
  shell = λ command secs w. (
    some (Io.done (record { stdout = command; stderr = ""; success = true; code = some 0 })),
    suc w,
  );
  exec = λ url command w. (Io.failed "no sidecar", w);
  toolbox_url = λ w. none;
  host_os = λ w. "linux";
  scripts_root = λ w. "/" ∷ "scripts" ∷ [];
  timestamp = λ w. "20260101-000000";
  now = λ w. "2026-01-01T00:00:00Z";
}

abbrev counted : Os ℕ
counted = record {
  exists = λ path w. true;
  is_file = λ path w. true;
  is_dir = λ path w. true;
  canonicalize = λ path w. Io.done path;
  metadata_len = λ path w. Io.done 0;
  read_to_string = λ path w. Io.done "";
  create_dir_all = λ path w. (Io.done tt, w);
  write = λ path content w. (Io.done tt, w);
  read_dir = λ path w. Io.done [];
  glob = λ pattern w. Io.done [];
}

-- A value is the list of its words.
abbrev decoder : Decoder String
decoder = record {
  null = "null";
  minus_one = "-1";
  to_texts = λ s. some (s ∷ []);
  to_steps = λ s. none;
  to_bool = λ s. none;
}

abbrev wanted : ToolParams String
wanted = record { values = ("packages", " curl ") ∷ [] }

abbrev bad_wanted : ToolParams String
bad_wanted = record { values = ("packages", "curl; rm x") ∷ [] }

test_installed :
    (Install.Tool.execute_tool texts decoder ascii counted probes
      (Install.new manifest)
      "cooperative_install"
      wanted
      0).1
    ≡ 1
unfolding Install.Tool.execute_tool
test_installed = refl

test_refused :
    (Install.Tool.execute_tool texts decoder ascii counted probes
      (Install.new manifest)
      "cooperative_install"
      bad_wanted
      0).1
    ≡ 0
unfolding Install.Tool.execute_tool
test_refused = refl

execute_tool-Reach_example :
    Reach ascii counted probes ascii-Lowers
      (Wanted texts decoder ascii counted probes "cooperative_install" wanted)
      (Given texts decoder ascii counted probes "cooperative_install" wanted)
      0
      (Install.Tool.execute_tool texts decoder ascii counted probes
        (Install.new manifest)
        "cooperative_install"
        wanted
        0).1
execute_tool-Reach_example =
    execute_tool-Reach texts decoder ascii counted probes "cooperative_install" wanted ascii-Lowers
      (Install.new manifest) 0

abbrev toolbox_codec : Codec String
toolbox_codec = record {
  integer = λ z. "0";
  exec_response = λ r. Io.done (record {
    success = true;
    exit_code = ℤ.pos 0;
    stdout = "hi";
    stderr = "";
    stdout_truncated = false;
    stderr_truncated = false;
    blocked = false;
  });
  tools_response = λ r. Io.done (record { available_tools = []; package_managers = [] });
  with_fields = λ fields v. v;
  to_texts = λ s. some (s ∷ "id" ∷ []);
}

-- A sidecar that answers, and keeps the URLs that it is asked.
abbrev sidecar : Http String (List String)
sidecar = record {
  header = λ s. Io.done tt;
  build = Io.done tt;
  post = λ token url body w. (reply, url ∷ w);
  get = λ token url w. (reply, url ∷ w);
}
  where
    reply : Io Response
    reply = Io.done (record { is_success = true; status = "200 OK"; text = some "" })

abbrev small : Cases
small = record { to_lowercase = same; to_ascii_lowercase = same }

abbrev toolbox : DockerExecSkill String
toolbox = Toolbox.new manifest none none

abbrev exec_params : String → ToolParams String
exec_params command = record { values = ("command", command) ∷ [] }

test_exec :
    (Toolbox.Calls.execute_tool texts toolbox_codec sidecar small toolbox "toolbox_exec"
      (exec_params "ls -la")
      []).1
    ≡ "http://orion-toolbox:9090/exec" ∷ []
unfolding Toolbox.Calls.execute_tool Toolbox.check_safety Calls.http_client
test_exec = refl

test_sudo :
    (Toolbox.Calls.execute_tool texts toolbox_codec sidecar small toolbox "toolbox_exec"
      (exec_params "sudo apt update")
      []).1
    ≡ []
unfolding Toolbox.Calls.execute_tool Toolbox.check_safety
test_sudo = refl

-- The check looks at the trimmed name, and the command takes the name as it is: here it ends in a line
-- break, and the next name is a command of its own.
test_line_break : check_packages ("curl\n" ∷ "id" ∷ []) ≡ none
unfolding check_packages
test_line_break = refl

test_second_command : install_command "npm" ("curl\n" ∷ "id" ∷ []) ≡ some "npm install -g curl\n id"
unfolding install_command
test_second_command = refl

execute_tool-Sent_example :
    Sent texts toolbox_codec sidecar small toolbox "toolbox_exec"
      (exec_params "ls -la")
      []
      (Toolbox.Calls.execute_tool texts toolbox_codec sidecar small toolbox "toolbox_exec"
        (exec_params "ls -la")
        []).1
execute_tool-Sent_example =
    execute_tool-Sent texts toolbox_codec sidecar small toolbox "toolbox_exec"
      (exec_params "ls -la") []

-- A parser of URLs that knows a few
abbrev urls : Urls
urls = record {
  parse = parse;
  show_ip = λ ip. "ip";
  to_lowercase = same;
  to_ascii_lowercase = same;
}
  where
    parse : String → Io Url
    parse s =
        if s == "https://example.org/"
        then Io.done (record {
          as_str = s;
          cannot_be_a_base = false;
          scheme = "https";
          host_str = some "example.org";
          host = some (UrlHost.domain "example.org");
        })
        else if s == "http://172.20.0.1/"
        then Io.done (record {
          as_str = s;
          cannot_be_a_base = false;
          scheme = "http";
          host_str = some "172.20.0.1";
          host = some (UrlHost.ipv4 (record { a = 172; b = 20; c = 0; d = 1 }));
        })
        else Io.failed "relative URL without a base"

-- A client that keeps the URLs that it is asked, and answers with a short page.
abbrev web : Client String (List String)
web = record { send = λ request w. (Io.done page, request.url ∷ w); to_headers = λ s. none }
  where
    page : Http.Requests.Response
    page = record {
      status = 200;
      canonical_reason = some "OK";
      headers = ("content-type", some "text/html") ∷ [];
      bytes = Io.done (record { size = 2; utf8_lossy = λ n. "hi" });
    }

abbrev url_params : String → ToolParams String
url_params url = record { values = ("url", url) ∷ [] }

test_get :
    (Http.Requests.execute_tool texts urls web "http_get" (url_params "https://example.org/") []).1
    ≡ "https://example.org/" ∷ []
unfolding Http.Requests.execute_tool Http.validate_url
test_get = refl

test_private :
    (Http.Requests.execute_tool texts urls web "http_post" (url_params "http://172.20.0.1/") []).1
    ≡ []
unfolding Http.Requests.execute_tool Http.validate_url
test_private = refl

-- The loopback address as an IPv4-mapped address of IPv6, ::ffff:127.0.0.1, is not private.
test_mapped :
    is_private_ip
      (IpAddr.v6 (record { first = 0; middle = 0 ∷ 0 ∷ 0 ∷ 0 ∷ 65535 ∷ 32512 ∷ []; last = 1 }))
    ≡ false
unfolding is_private_ip
test_mapped = refl

execute_tool-Requested_example :
    Requested texts urls web []
      (Http.Requests.execute_tool texts urls web "http_get"
        (url_params "https://example.org/")
        []).1
execute_tool-Requested_example =
    execute_tool-Requested texts urls web "http_get" (url_params "https://example.org/") []
