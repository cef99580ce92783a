-- ===== src/Lib.antt =====
-- remctl: a client sends a command, a list of arguments, to a server over a connection that
-- GSS-API encrypts; the server looks the command up in its configuration, checks that the user
-- may run it, runs a program, and sends its output and exit status back.
--
-- Base has what all files share: numbers and their tests, lists, octets, and the four octets of a
-- number in network order (htonl, ntohl). Protocol has the constants of util/protocol.h and
-- util/tokens.h; Protocol/Wire and Protocol/Chunks state, apart from the code, the payload of a
-- command and how it is cut into tokens with their continue statuses, as docs/protocol.xml
-- describes them. Channel is the connection as the functions of util/gss-tokens.c show it: the
-- tokens sent, one outcome for each send, one result for each receive.
--
-- Client/V2 is internal_v2_commandv of client/client-v2.c: fill, round and copy are its inner
-- loop, send_tokens its outer loop on fuel. Each round of the outer loop sends at least one
-- octet, so that the length of the message is fuel enough. Client/V2/Fill has the lemmas on the
-- inner loop, Client/V2/Reliable and Client/V2/Round those on one round of the outer loop over a
-- channel that takes every token, and Client/V2/Send those on the whole of it.
--
-- Server/Session has struct client of server/internal.h and the actions of the code that serves
-- it, which read and change the client or end in a fault: the server dies, reads past the end of
-- a token, or runs out of fuel. Server/Callbacks has the callbacks that server_new_client of
-- server/generic.c and server_ssh_new_client of server/server-ssh.c set, Server/V1/Messages,
-- Server/V2/Messages and Server/Ssh/Messages the messages that they send. Server/Parse is
-- server_parse_command. Server/V2 is server/server-v2.c: read_token and read_continuation,
-- collect for the loop of server_v2_handle_command, handle_command, handle_token and
-- handle_messages in Server/V2/Handle. collect takes one more round than there are tokens to come
-- in, and handle_messages likewise: a round ends, or takes a token.
--
-- Server/Commands is server/commands.c: Match has line_matches and find_config_line, Argv the
-- argument vectors, Nuls the tests for nul octets, Summary server_send_summary, Dispatch
-- server_run_command. Process has struct process and the record Host, through which these
-- functions reach the access check of server/config.c and the process loop of server/process.c.
-- Server/Rule is struct rule. The Boolean that the access check gives Dispatch is what Server/Acl
-- computes: Acl/Lines has the lines of an ACL file and the table of schemes, Acl/Include has
-- handle_include, Acl/Check the schemes, acl_check and server_config_acl_permit, on fuel for the
-- nesting, of which Acl/Nesting says how much is enough, and Acl/Reads states, apart from the
-- code, what an entry asks for; the record System has what the file system and the libraries
-- answer. acl_check takes one unit of fuel for each entry within an entry, since files that
-- include each other are read without end; a check that is out of fuel is an answer of its own.
-- Server/Config has the options of a configuration line (Config/Options) and the line itself
-- (Config/Line). Config/File is the reading of the lines of a file, which may be longer than the
-- buffer or go on behind a backslash, and Config/Load is read_conf_file with its includes, and
-- server_config_load; the record Files has what the file system answers, bufsize is an int in the
-- code and a number here, on whose size Config/File/Fits and Config/Load/Fits have the theorems;
-- and the nesting of files takes fuel, which is enough where includes have no cycles
-- (Load/Nesting). Each round of the loops over lines reads at least one octet, so that the length
-- of the file is fuel enough. Server/Log is server_log_command of server/logging.c, and
-- Server/Ssh is server_ssh_parse_command of server/server-ssh.c, and Server/Ssh/Shell main of
-- server/remctl-shell.c, with server_ssh_new_client, up to the call of server_run_command: it
-- ends in the arguments of that call, or in why there is none. Server/Ssh/Program is the whole of
-- that main, with the call, over the callbacks of server-ssh.c, whose writes go to a terminal: a
-- record of what was written to standard output and standard error, and of what the writes to
-- come will do. Server/V1/Handle is server_v1_handle_messages of server/server-v1.c.
--
-- Util/Vector has the functions of util/vector.c that split and join strings. Util/Tokens is
-- util/tokens.c and Util/GssTokens util/gss-tokens.c, over the functions that read and write
-- octets and those of GSS-API. Server/Negotiate is server_new_client of server/generic.c.
--
-- Client/Session has struct remctl of client/internal.h, with the world behind it: what the
-- network and GSS-API answer, and a record of the ports tried, the tokens sent and the
-- descriptors closed. Client/Open is client/open.c: establish is the loop of internal_open over
-- the rounds that GSS-API takes. Client/V2/Output has what internal_v2_output of
-- client/client-v2.c makes of a token, Client/V2/Messages the functions of that file on a
-- session, Client/V1 is client/client-v1.c, and Client/Api and Client/Simple are client/api.c:
-- the sessions, and the interface remctl, which is simple_remctl here. Its loop takes one more
-- round than there are tokens to come in: each output but the last takes a token. Client/Program
-- is the program remctl, client/remctl.c, which prints what comes in: its loop takes the same
-- number of rounds. What getopt finds in its arguments is an input.
--
-- Server/Process is server/process.c with the output handlers of server/server-v1.c,
-- server/server-v2.c and server/server-ssh.c: start, dispatch for one run of the event loop,
-- drain for the later runs, and server_process_run; Server/Process/Child is the child's side of
-- start. The events that libevent hands out are inputs, run by run. Server/Frugal bounds what the
-- server reads: an action never runs out of fuel and leaves no more tokens to come than it finds.
-- What the other side sends, and the events of each run, are finite lists here: a connection or a
-- process that goes on without end keeps the loops of the code running, and is outside of the
-- model.
--
-- Delivery joins both sides: a command that internal_v2_commandv, or internal_v1_commandv, sends
-- and the server takes. Reply joins them the other way round: the messages of Server/V2/Messages
-- and Server/V1/Messages and what the client reads, in Reply/Run a process that the server runs
-- and what the client collects, and in Reply/Program what the program remctl prints of it.
-- Exchange puts both together, from the command that the client sends to the result that it
-- collects, and Exchange/Denied the same for a command that the access check of the server
-- denies. Exchange/Serves has the message loop of the server over that access check and the
-- process loop.
--
-- Not modelled: sockets and timeouts, what the child does with its descriptors, warnings and
-- notices but that of a command, memory that runs out, writes that take a part of what they are
-- given, the daemon, the options of the program remctld, and the bindings. util/buffer.c,
-- util/network.c, util/messages.c, util/xmalloc.c, util/xwrite.c, util/fdflag.c and portable/ are
-- copies of files of the rra-c-util package, and the bindings are glue over the client library. A
-- char is signed, as with the compilers of the usual platforms; size_t has 64 bits.
pub mod Base
pub mod Util
pub mod Protocol
pub mod Channel
pub mod Client
pub mod Server
pub mod Delivery
pub mod Reply
pub mod Exchange
