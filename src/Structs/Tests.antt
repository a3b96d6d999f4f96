-- ===== src/Structs/Tests.antt =====
-- A drive behind the structures of a Linux without DVD_LU_SEND_RPC_STATE.
use libdvdcss.Common.{true, false, none, some, []}
use libdvdcss.Keys.{DvdKey}
use libdvdcss.Dvdcss.{Drive}

abbrev key : DvdKey
key = record { k0 = 0x51; k1 = 0x67; k2 = 0x67; k3 = 0xc5; k4 = 0xe0 }

abbrev drive : Drive
drive = record {
  copyright = λ log. some 1;
  rpc = λ log. some (2, 0xfb, 1);
  agid = λ log. some 3;
  accepts_challenge = λ log. false;
  key1 = λ log. none;
  challenge = λ log. none;
  accepts_key2 = λ log. true;
  disc_key = λ log. none;
  title_key = λ log. some key;
  asf = λ log. some 0;
  position = λ log. some 0;
  blocks = λ log. some (0, []);
  vectors = λ log. some (0, []);
}
