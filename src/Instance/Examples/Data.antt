-- ===== src/Instance/Examples/Data.antt =====
-- A small instance: one interface with one neighbor.
use ospfd.Common.{true, false, none, some, [], ◌∷◌, unspecified}
use ospfd.Packet.Hello.{HelloPacket}
use ospfd.Packet.Lsa.Header.{LsaKey, router}
use ospfd.Packet.Lsa.Body.{LsaBody}
use ospfd.Packet.Lsa.Codec.{Lsa}
use ospfd.Neighbor.Machine.{Neighbor, loading}
use ospfd.Interface.Machine.{OspfInterface, InterfaceState, NetworkType}
use ospfd.Area.{AreaType}
use ospfd.Lsdb.Store.{Lsdb}
use ospfd.Instance.State.{OspfInstance}

abbrev pub lsa : Lsa
lsa = record {
  header = record {
    ls_age = 1;
    options = 2;
    ls_type = router;
    link_state_id = 0x03030303;
    advertising_router = 0x03030303;
    ls_sequence_number = 0x80000001;
    ls_checksum = 7;
    length = 24;
  };
  body = LsaBody.router (record { flags = 0; links = [] });
}

abbrev pub requested : LsaKey
requested = record { ls_type = router; link_state_id = 0x03030303; advertising_router = 0x03030303 }

abbrev pub peer : Neighbor
peer = record {
  router_id = 0x02020202;
  address = 0x0A000002;
  state = loading;
  priority = 1;
  dr = unspecified;
  bdr = unspecified;
  options = 2;
  dd_seq_number = 5;
  is_master = true;
  sent_m_clear = false;
  last_dd = none;
  ls_request_list = requested ∷ [];
  ls_retransmit_list = [];
  db_summary_list = lsa.header ∷ [];
  last_heard = 0;
  last_dd_sent = 0;
  last_lsr_sent = 0;
}

abbrev pub eth0 : OspfInterface
eth0 = record {
  name = "eth0";
  sw_if_index = 1;
  address = 0x0A000001;
  mask = 0xFFFFFF00;
  state = InterfaceState.dr;
  network_type = NetworkType.broadcast;
  area_id = unspecified;
  hello_interval = 10;
  dead_interval = 40;
  rxmt_interval = 5;
  cost = 10;
  priority = 1;
  passive = false;
  static_neighbors = [];
  dr = 0x0A000001;
  bdr = unspecified;
  options = 2;
  neighbors = (0x02020202, peer) ∷ [];
  next_hello = 0;
  wait_timer_expiry = none;
  crypto_seq = 0;
  router_id = 0x01010101;
  dd_mtu = 1500;
}

abbrev pub empty : Lsdb
empty = record { entries = []; router_id = 0x01010101 }

abbrev pub inst : OspfInstance
inst = record {
  router_id = 0x01010101;
  areas =
      (
        unspecified,
        record {
          area_id = unspecified;
          area_type = AreaType.normal;
          default_cost = 1;
          lsdb = empty;
        },
      )
      ∷ [];
  as_external_lsdb = empty;
  redistribute = [];
  interfaces = eth0 ∷ [];
  spf_scheduled = none;
  spf_last_run = some 7;
  spf_hold_multiplier = 1;
  spf_delay_ms = 200;
  spf_holdtime_ms = 1000;
  spf_max_holdtime_ms = 10000;
}

abbrev pub hello : HelloPacket
hello = record {
  network_mask = 0xFFFFFF00;
  hello_interval = 10;
  options = 2;
  router_priority = 1;
  router_dead_interval = 40;
  designated_router = unspecified;
  backup_designated_router = unspecified;
  neighbors = 0x01010101 ∷ [];
}
