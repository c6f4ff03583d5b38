-- ===== src/Disk.antt =====
-- What the file system and the external commands answer, and the encodings that the volumes use.
use virtual_kubelet_cmd.Base.{String, Bool, Option, List, ℤ}

pub record Disk : Type 0 where
  -- os.MkdirAll and os.Chown succeed
  pub mkdir_all : String → Bool
  pub chown : String → ℤ → ℤ → Bool
  -- ioutil.TempFile: the name of the new file in the directory
  pub temp_file : String → Option String
  -- ioutil.WriteFile and os.Rename succeed
  pub write_file : String → Bool
  pub rename : String → String → Bool
  -- os.RemoveAll and os.Create succeed
  pub remove_all : String → Bool
  pub create : String → Bool
  -- ioutil.ReadDir: the names in the directory
  pub read_dir : String → Option (List String)
  -- the commands `mkdir -p dst` and `cp src dst` succeed
  pub run_mkdir : String → Bool
  pub run_cp : String → String → Bool
  -- strconv.ParseInt(s, 10, 64), and whether there was no error
  pub parse_int : String → ℤ × Bool
  -- base64.StdEncoding.DecodeString
  pub base64_decode : String → Option String
