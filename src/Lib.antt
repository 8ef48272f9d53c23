-- ===== src/Lib.antt =====
-- byedpi is a local proxy (SOCKS4, SOCKS5, HTTP CONNECT, transparent) that changes how the first
-- bytes of a connection are sent, so that filters on the way do not recognise them. An event loop
-- (conev.c) calls the handlers of the proxy (proxy.c); the hooks of extend.c choose a group of options
-- for a connection, from the address and the first bytes, and go on to another group when an answer
-- shows that the connection was cut; desync.c changes the first request (packets.c) and sends it in
-- parts; mpool.c keeps the tables of names and addresses, in a tree of kavl.h.
--
-- Files and what they model:
--   Prelude      bytes, checked reads and writes, integers with signs, words of bits, <ctype.h>
--   Packets      packets.c. Tls: the search for extensions, parse_tls. Http: is_http, parse_http.
--                Record: part_tls. Edit: merge_tls_records, copy_name, remove_ks_group,
--                remove_tls_ext. Sni: resize_ech_ext, resize_sni, change_tls_sni, randomize_tls.
--                Reply: is_http_redirect, neq_tls_sid, mod_http
--   Desync       desync.c. Offset: gen_offset. Tamp: tamp. Fake: get_tcp_fake. Kernel: send_oob,
--                send_fake, restore_state. Split: desync. Udp: desync_udp
--   Extend       extend.c. Filter: check_host, check_ip, check_l34, find_dp, with the loop of find_dp
--                in Groups. Trigger: the searches of on_trigger and on_response, try_set_tls_timer.
--                Hooks: tcp_send_hook, tcp_recv_hook. Cache: cache_get, cache_add. Swop: swop_groups.
--                Recover: on_trigger, reconnect, on_torst, on_fin, on_timeout. Connect: connect_hook,
--                setup_conn, udp_hook
--   Mpool        mpool.c: the comparisons bit_cmp, byte_cmp, host_cmp. Pool: mem_add, mem_delete,
--                mem_destroy, over the tree of kavl.h as an interface
--   Conev        conev.c. Buffers: buff_pop, buff_push. Timers: set_timer, remove_timer. Events:
--                add_event, del_event, destroy_pool. Rounds: next_event, next_event_tv. Cycle:
--                loop_event, over the callbacks
--   Net, Proxy   proxy.c: map_fix and the requests and replies of SOCKS. Requests: on_request.
--                Tunnel: on_tunnel, over the hooks as a parameter. Outgoing: remote_sock, create_conn,
--                udp_associate, by the answers of the system calls
--   Options      main.c. Text: parse_cform, data_from_str. Hosts: parse_hosts. Addresses:
--                parse_ip, parse_ipset. Masks: add_group. Offsets:
--                parse_offset. Listen: get_addr, get_addr_scheme
--   Tests        runs, and a use of each theorem at concrete values
--
-- A C object is a list of bytes and a pointer into it an offset. A function that reads or writes
-- through a pointer returns an Option: `none` is an access outside the object, so that a theorem on
-- the result of a function also states that it stays inside. size_t is a number below 2 ^ 64 where the
-- code depends on the wrap (part_tls, gen_offset); long and ssize_t are integers without a bound. The
-- other loops run on fuel that is derived from the size of the buffer and proved enough where the
-- theorem says that the function returns: strncasestr has one step for each byte, find_tls_ext_offset
-- one for each byte, find_dp one for each group of the ring. change_tls_sni and desync take the fuel of
-- merge_tls_records as an argument, since that loop need not end. mem_add and mem_destroy take more
-- rounds than the tree has elements, del_event and destroy_pool more than there are entries in use,
-- and on_tunnel, loop_event and on_trigger take their rounds as an argument. The results of rand() and the replies of the
-- kernel are sequences that the definitions take. The search in the tree of kavl.h, getaddrinfo,
-- sscanf and inet_pton are parameters. char is compared as the ASCII bounds allow, and the byte order
-- is that of a little-endian host.
--
-- Not modelled: getopt and the start of main.c, the SOCKS client of extend.c,
-- on_connect, on_udp_tunnel and on_accept of proxy.c, and the files of mpool.c. kavl.h is
-- another project's. The code for Windows and win_service.c are left out.
pub mod Prelude
pub mod Packets
pub mod Net
pub mod Options
pub mod Conev
pub mod Mpool
pub mod Extend
pub mod Desync
pub mod Proxy
pub mod Tests
