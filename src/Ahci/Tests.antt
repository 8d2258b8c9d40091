-- ===== src/Ahci/Tests.antt =====
-- An adapter with 32 places for ports, of which the first two are implemented.
use capucho_os.Base.{◌≡◌, refl, ret, ◌>>=◌, get_elem?, replicate, length-replicate, arith}
use capucho_os.Ahci.{
  HbaPortRegisters, HbaMemoryRegisters, cmd_list_addr, set_cmd_list_addr, fis_addr,
  set_fb_list_addr, get_port, port_slice,
}
use capucho_os.Ahci.Ports.{addresses, address_setters, port_slice-get_port}

abbrev port : HbaPortRegisters
port = record {
  clb = 0;
  clbu = 0;
  fb = 0x2000;
  fbu = 1;
  int_status = 0;
  int_enable = 0;
  cmd = 0;
  reserved_0 = 0;
  tfd = 0;
  sig = 0x101;
  ssts = 0x113;
  sctl = 0;
  serr = 0;
  sact = 0;
  cmd_issue = 0;
  sntf = 0;
  fbs = 0;
  reserved_1 = replicate 11 0;
  vendor = replicate 4 0;
}

abbrev adapter : HbaMemoryRegisters
adapter = record {
  cap = 0;
  ghc = 0;
  int_status = 0;
  port_implemented = 3;
  version = 0;
  ccc_ctl = 0;
  ccc_ports = 0;
  em_loc = 0;
  em_ctl = 0;
  cap_ext = 0;
  bohc = 0;
  reserved_0 = replicate 116 0;
  vendor = replicate 96 0;
  ports = replicate 32 port;
}

address_setters_example :
    ((set_cmd_list_addr port 0x500000400 >>= λ p. ret (addresses p))
      ≡ ret (0x500000400, fis_addr port))
    × ((set_fb_list_addr port 0x500000400 >>= λ p. ret (addresses p))
        ≡ ret (cmd_list_addr port, 0x500000400))
address_setters_example = address_setters port 0x500000400 (omega arith) refl

port_slice-get_port_example :
    (port_slice adapter >>= λ ports. ret (get_elem? ports 1)) ≡ get_port adapter 1
port_slice-get_port_example =
    port_slice-get_port adapter 2 1 (length-replicate 32 port) (omega arith) refl (omega arith)
